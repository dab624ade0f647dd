-- ===== src/Z80/RoundTrip.antt =====
-- `uncompress_block` undoes `compress_block`.
use libspectrum.Base.{ℕ, zero, suc, ◌+◌, ◌*◌, ◌≤◌, ◌<◌, ◌≡◌, refl, ap, ◌∙◌, sym, arith}
use libspectrum.Base.{Bool, true, false, ◌&&◌, ◌||◌, not, leb, ltb, ◌==◌, Bool-cases, inl, inr, ◌⊎◌}
use libspectrum.Base.{List, [], ◌∷◌, ◌++◌, some, length, replicate, length-append}
use libspectrum.Base.{length-replicate, replicate-append_one}
use native.Mathlib.Numerals.{add-one}
use libspectrum.Base.Partial.{◌>>=◌}
use libspectrum.Bytes.{byte}
use libspectrum.Z80.Compress.{run_tail, store_run, compress_loop, compress_block, uncompress_block}

-- Whether the first byte is 0xed.
abbrev pub starts_ed : List ℕ → Bool
starts_ed [] = false
starts_ed (x ∷ xs) = x == 0xed

-- A byte before coded data is read as itself, unless it makes a pair of 0xed with the next.
uncompress-cons_eq :
    (x : ℕ) (out : List ℕ)
    → (x == 0xed && starts_ed out) ≡ false
    → uncompress_block (x ∷ out) ≡ (uncompress_block out >>= λ r. some (x ∷ r))
unfolding uncompress_block
uncompress-cons_eq x [] h = refl
uncompress-cons_eq x (y ∷ []) h = rw (h, uncompress_block)
uncompress-cons_eq x (y ∷ z ∷ []) h = rw (h, uncompress_block)
uncompress-cons_eq x (y ∷ z ∷ w ∷ rest) h = rw (h, uncompress_block)

uncompress-cons :
    (x : ℕ) (out src : List ℕ)
    → (x == 0xed && starts_ed out) ≡ false
    → uncompress_block out ≡ some src
    → uncompress_block (x ∷ out) ≡ some (x ∷ src)
uncompress-cons x out src h e = uncompress-cons_eq x out h ∙ rw e

uncompress-run :
    (n x : ℕ) (out src : List ℕ)
    → uncompress_block out ≡ some src
    → uncompress_block (0xed ∷ 0xed ∷ n ∷ x ∷ out) ≡ some (replicate n x ++ src)
unfolding uncompress_block
uncompress-run n x out src e = rw e

uncompress-replicate :
    (n x : ℕ) (out src : List ℕ)
    → (x == 0xed) ≡ false
    → uncompress_block out ≡ some src
    → uncompress_block (replicate n x ++ out) ≡ some (replicate n x ++ src)
uncompress-replicate zero x out src h e = e
uncompress-replicate (suc n) x out src h e =
    uncompress-cons x (replicate n x ++ out) (replicate n x ++ src) (rw h)
      (uncompress-replicate n x out src h e)

-- What the inner loop has found: the run and the rest make up the input.
pub record Run (x n : ℕ) (l : List ℕ) (found : ℕ × List ℕ) : Type 0 where
  pub whole : replicate found.0 x ++ found.1 ≡ replicate n x ++ l
  pub longer : n ≤ found.0
  pub capped : found.0 ≤ 255
  pub count : found.0 + length found.1 ≡ n + length l

pub run_tail-Run : (x n : ℕ) (l : List ℕ) → n ≤ 255 → Run x n l (run_tail x n l)
unfolding run_tail
run_tail-Run x n [] h = record { whole = refl; longer = omega arith; capped = h; count = refl }
run_tail-Run x n (y ∷ l) h = elim (Bool-cases (y == x && ltb n 0xff)) [
  | inl more ↦
      let r = run_tail-Run x (n + 1) l (ground arith) in
      rw more record {
        whole = r.whole ∙ one_more (ground arith);
        longer = omega (arith, r.longer);
        capped = r.capped;
        count = omega (arith, r.count);
      }
  | inr done ↦ rw done record { whole = refl; longer = omega arith; capped = h; count = refl }
]
  where
    one_more : y ≡ x → replicate (n + 1) x ++ l ≡ replicate n x ++ y ∷ l
    one_more e = rw (add-one, e) (sym (replicate-append_one n x l))

-- What a run is stored as is read back as the run.
store_run-back :
    (n x : ℕ) (out src : List ℕ)
    → n ≤ 255
    → uncompress_block out ≡ some src
    → uncompress_block (store_run n x ++ out) ≡ some (replicate n x ++ src)
unfolding store_run
store_run-back n x out src h e = elim (Bool-cases (leb 5 n || x == 0xed)) [
  | inl long ↦
      let small : byte n ≡ n = omega arith in rw (long, small) (uncompress-run n x out src e)
  | inr short ↦ rw short (uncompress-replicate n x out src (ground arith) e)
]

-- Storing a run of two bytes or more takes at most twice as many.
length-store_run : (n x : ℕ) → 2 ≤ n → length (store_run n x) ≤ 2 * n
unfolding store_run
length-store_run n x h = ground (arith, length-replicate n x)

-- What the outer loop has stored for `src`, after a single 0xed or not.
record Coded (src : List ℕ) (last_char_ed : Bool) (out : List ℕ) : Type 0 where
  back : uncompress_block out ≡ some src
  short : length out ≤ 2 * length src
  same_start : last_char_ed ≡ true → starts_ed out ≡ starts_ed src

-- One round of the outer loop, at a run and at a single byte.
pub compress_loop-run :
    (rounds x y : ℕ) (rest : List ℕ) (flag : Bool)
    → (x == y && not flag) ≡ true
    → compress_loop (suc rounds) (x ∷ y ∷ rest) flag ≡ (
        compress_loop rounds (run_tail x 2 rest).1 false >>= λ out.
        some (store_run (run_tail x 2 rest).0 x ++ out))
unfolding compress_loop
compress_loop-run rounds x y rest flag h = rw (h, compress_loop)

pub compress_loop-single :
    (rounds x y : ℕ) (rest : List ℕ) (flag : Bool)
    → (x == y && not flag) ≡ false
    → compress_loop (suc rounds) (x ∷ y ∷ rest) flag
      ≡ (compress_loop rounds (y ∷ rest) (x == 0xed) >>= λ out. some (x ∷ out))
unfolding compress_loop
compress_loop-single rounds x y rest flag h = rw (h, compress_loop)

-- The result of a run: the run itself, and what the next rounds store.
Run-Coded :
    (x y : ℕ) (rest : List ℕ) (flag : Bool) (found : ℕ × List ℕ) (out : List ℕ)
    → (x == y && not flag) ≡ true
    → Run x 2 rest found
    → Coded found.1 false out
    → Coded (x ∷ y ∷ rest) flag (store_run found.0 x ++ out)
Run-Coded x y rest flag (n, rest') out h r c = record {
  back =
      store_run-back n x out rest' r.capped c.back
      ∙ ap some (r.whole ∙ ap (λ t. x ∷ t ∷ rest) (ground arith));
  short =
      omega
        (arith, length-append (store_run n x) out, length-store_run n x r.longer, c.short, r.count);
  same_start = λ e. absurd (ground arith);
}

single-Coded :
    (x y : ℕ) (rest : List ℕ) (flag : Bool) (out : List ℕ)
    → (x == y && not flag) ≡ false
    → (flag && starts_ed (x ∷ y ∷ rest)) ≡ false
    → Coded (y ∷ rest) (x == 0xed) out
    → Coded (x ∷ y ∷ rest) flag (x ∷ out)
single-Coded x y rest flag out h k c = record {
  back = uncompress-cons x out (y ∷ rest) (apart (Bool-cases (x == 0xed))) c.back;
  short = omega (arith, c.short);
  same_start = λ _. refl;
}
  where
    apart : (x == 0xed) ≡ true ⊎ (x == 0xed) ≡ false → (x == 0xed && starts_ed out) ≡ false
    apart (inl e) = rw (e, c.same_start e) (ground arith)
    apart (inr e) = rw e

compress_loop-Coded :
    (rounds : ℕ) (src : List ℕ) (last_char_ed : Bool)
    → length src < rounds
    → (last_char_ed && starts_ed src) ≡ false
    → (out : List ℕ) × (compress_loop rounds src last_char_ed ≡ some out)
      × Coded src last_char_ed out
compress_loop-Coded zero src flag h k = absurd (omega arith)
compress_loop-Coded (suc rounds) [] flag h k = (
  [],
  unfold compress_loop in refl,
  record { back = unfold uncompress_block in refl; short = omega arith; same_start = λ _. refl },
)
compress_loop-Coded (suc rounds) (x ∷ []) flag h k = (
  x ∷ [],
  unfold compress_loop in refl,
  record { back = unfold uncompress_block in refl; short = omega arith; same_start = λ _. refl },
)
compress_loop-Coded (suc rounds) (x ∷ y ∷ rest) flag h k = elim (Bool-cases (x == y && not flag)) [
  | inl run ↦
      let found = run_tail x 2 rest in
      let r = run_tail-Run x 2 rest (omega arith) in
      let less : length found.1 < rounds = omega (arith, r.count, r.longer) in
      let (out, e, c) = compress_loop-Coded rounds found.1 false less refl in
      (
        store_run found.0 x ++ out,
        compress_loop-run rounds x y rest flag run
            ∙ ap (λ m. m >>= λ out. some (store_run found.0 x ++ out)) e,
        Run-Coded x y rest flag found out run r c,
      )
  | inr single ↦
      let less : length (y ∷ rest) < rounds = omega arith in
      let apart : (x == 0xed && starts_ed (y ∷ rest)) ≡ false = ground arith in
      let (out, e, c) = compress_loop-Coded rounds (y ∷ rest) (x == 0xed) less apart in
      (
        x ∷ out,
        compress_loop-single rounds x y rest flag single ∙ ap (λ m. m >>= λ out. some (x ∷ out)) e,
        single-Coded x y rest flag out single k c,
      )
]

-- `compress_block` ends on every input, with at most twice as many bytes, and `uncompress_block`
-- reads them back as the input without running past their end.
pub uncompress_block-compress_block :
    (src : List ℕ)
    → (out : List ℕ) × (compress_block src ≡ some out)
      × (uncompress_block out ≡ some src)
      × (length out ≤ 2 * length src)
unfolding compress_block
uncompress_block-compress_block src =
    let (out, e, c) = compress_loop-Coded (suc (length src)) src false (omega arith) refl in
    (out, e, c.back, c.short)
