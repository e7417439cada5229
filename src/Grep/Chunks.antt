-- ===== src/Grep/Chunks.antt =====
-- `parse` of MCGrep/mcgrep.c: when it ends, and what the chunks hold.
use native.Mathlib.Nat.{div-eq_of_lt, le-div_iff_mul-le, mul-le-mul_right, mul-div-le}
use operating_system_basics.Base.{
  ℕ, zero, suc, ◌+◌, ◌-◌, ◌*◌, ◌/◌, ◌%◌, ◌^◌, ◌≤◌, ◌<◌, ◌≡◌, refl, ap, ◌∙◌, Option, some, [], ◌∷◌,
  arith, ltb, leb, false, ltb→lt, not-ltb→le, lt→ltb, Bool-cases, inl, inr, length, take, drop,
}
use operating_system_basics.Grep.{
  Bytes, Files, running, parsed, update, copy_from, parse_loop, parse,
}

drop-cons : (i : ℕ) (src : Bytes) → i < length src → (c : ℕ) × (drop i src ≡ c ∷ drop (i + 1) src)
drop-cons i [] h = absurd (omega arith)
drop-cons zero (c ∷ s) h = (c, refl)
drop-cons (suc i) (c ∷ s) h =
    let (d, e) = drop-cons i s (omega arith) in
    let k : i + 1 ≡ suc i = omega arith in
    let l : suc i + 1 ≡ suc (suc i) = omega arith in (d, e ∙ rw (k, l) refl)

-- A copy inside the file is a part of it.
copy_from-take :
    (past : ℕ → ℕ) (src : Bytes) (n i : ℕ)
    → i + n ≤ length src
    → copy_from past src i n ≡ take n (drop i src)
unfolding copy_from
copy_from-take past src zero i h = refl
copy_from-take past src (suc n) i h =
    let (c, e) = drop-cons i src (omega arith) in
    rw e (ap (◌∷◌ c) (copy_from-take past src n (i + 1) (omega arith)))

-- With an empty chunk and a file that is not empty the loop does not end.
pub parse_loop-stuck :
    (past : ℕ → ℕ) (src : Bytes) (fuel i k : ℕ) (fs : Files)
    → i < length src
    → i < 2 ^ 31
    → parse_loop past src 0 fuel i k fs ≡ running
unfolding parse_loop
parse_loop-stuck past src zero i k fs h l = refl
parse_loop-stuck past src (suc fuel) i k fs h l =
    let fits : leb (2 ^ 31) (i + 0) ≡ false = ground arith in
    rw (lt→ltb i (length src) h, fits)
      (parse_loop-stuck past src fuel (i + 0) (k + 1) _ (omega arith) (omega arith))

-- File `k` holds the chunk at `i`, and the files from `k + 1` on the chunks from `i + chunk` on.
next_parts :
    (tmp : ℕ → Option Bytes) (src : Bytes) (chunk i k : ℕ)
    → (i + chunk ≤ length src → tmp k ≡ some (take chunk (drop i src)))
    → ((m : ℕ)
        → i + chunk + m * chunk + chunk ≤ length src
        → tmp (k + 1 + m) ≡ some (take chunk (drop (i + chunk + m * chunk) src)))
    → (m : ℕ) → i + m * chunk + chunk ≤ length src
    → tmp (k + m) ≡ some (take chunk (drop (i + m * chunk) src))
next_parts tmp src chunk i k first others zero l =
    let a : k + 0 ≡ k = omega arith in
    let b : i + 0 * chunk ≡ i = omega arith in rw (a, b) (first (omega arith))
next_parts tmp src chunk i k first others (suc m) l =
    let a : k + suc m ≡ k + 1 + m = omega arith in
    let b : i + suc m * chunk ≡ i + chunk + m * chunk = omega arith in
    rw (a, b) (others m (omega arith))

update_other : (f : ℕ → Option Bytes) (k : ℕ) (b : Bytes) (j : ℕ) → j < k → update f k b j ≡ f j
update_other f k b j l = ground arith

update_same : (f : ℕ → Option Bytes) (k : ℕ) (b : Bytes) → update f k b k ≡ some b
update_same f k b = ground arith

-- The loop from position `i` and file `k` on ends with the whole chunks of the rest in the files
-- from `k` on, and leaves the files below `k` and the outputs alone.
parse_loop-chunks :
    (past : ℕ → ℕ) (src : Bytes) (chunk fuel i k : ℕ) (fs : Files)
    → 0 < chunk
    → length src + chunk ≤ 2 ^ 31
    → length src - i < fuel
    → (new : Files) × (parse_loop past src chunk fuel i k fs ≡ parsed new)
      × ((j : ℕ) → j < k → new.tmp j ≡ fs.tmp j)
      × ((m : ℕ)
          → i + m * chunk + chunk ≤ length src
          → new.tmp (k + m) ≡ some (take chunk (drop (i + m * chunk) src)))
      × (new.out ≡ fs.out)
unfolding parse_loop
parse_loop-chunks past src chunk zero i k fs h b f = absurd (omega arith)
parse_loop-chunks past src chunk (suc fuel) i k fs h b f = elim (Bool-cases (ltb i (length src))) [
  | inr e ↦
      let over = not-ltb→le i (length src) e in
      rw e (fs, refl, λ j l. refl, λ m l. absurd (omega arith), refl)
  | inl e ↦
      let inside = ltb→lt i (length src) e in
      let fits : leb (2 ^ 31) (i + chunk) ≡ false = ground arith in
      let (new, ends, below, parts, same) =
        parse_loop-chunks past src chunk fuel (i + chunk) (k + 1)
          (record fs { tmp = update fs.tmp k (copy_from past src i chunk) }) h b (omega arith) in
      rw (e, fits)
        (
          new,
          ends,
          λ j l. below j (omega arith) ∙ update_other fs.tmp k _ j l,
          next_parts new.tmp src chunk i k
              (λ l.
                below k (omega arith)
                ∙ update_same fs.tmp k (copy_from past src i chunk)
                ∙ ap some (copy_from-take past src chunk i l))
              parts,
          same,
        )
]

chunk-inside : (total n m : ℕ) → m < n → 0 + m * (total / n) + total / n ≤ total
chunk-inside total n m l =
    let a = mul-le-mul_right {m = suc m} {n = n} (total / n) l in
    let b = mul-div-le total n in omega arith

-- For a file of at least as many bytes as threads, where the size and a chunk more are at most 2^31,
-- `parse` ends, and file `m + 1` holds the
-- `chunk` bytes of the input from `m * chunk` on, for each thread; the outputs are left alone.
pub parse-chunks :
    (past : ℕ → ℕ) (src : Bytes) (num_thread : ℕ) (fs : Files)
    → 0 < num_thread
    → num_thread ≤ length src
    → length src + length src / num_thread ≤ 2 ^ 31
    → let chunk = length src / num_thread in
      (new : Files) × (parse past (length src + 1) src num_thread fs ≡ parsed new)
      × ((m : ℕ) → m < num_thread → new.tmp (1 + m) ≡ some (take chunk (drop (m * chunk) src)))
      × (new.out ≡ fs.out)
unfolding parse
parse-chunks past src num_thread fs pos enough bound =
    let chunk = length src / num_thread in
    let whole : 0 < chunk = (le-div_iff_mul-le {x = 1} pos).1 (omega arith) in
    let (new, ends, below, parts, same) =
      parse_loop-chunks past src chunk (length src + 1) 0 1 fs whole bound (omega arith) in
    let same_chunk : chunk % 2 ^ 32 ≡ chunk = omega arith in
    let positive : leb (2 ^ 31) chunk ≡ false = ground arith in
    (
      new,
      rw (same_chunk, positive) ends,
      λ m l.
          let start : 0 + m * chunk ≡ m * chunk = omega arith in
          parts m (chunk-inside (length src) num_thread m l)
          ∙ ap (λ i. some (take chunk (drop i src))) start,
      same,
    )

-- With more threads than bytes `parse` does not end, unless the file is empty.
pub parse-stuck :
    (past : ℕ → ℕ) (fuel : ℕ) (src : Bytes) (num_thread : ℕ) (fs : Files)
    → 0 < length src
    → length src < num_thread
    → parse past fuel src num_thread fs ≡ running
unfolding parse
parse-stuck past fuel src num_thread fs some_bytes few =
    rw (div-eq_of_lt few) (parse_loop-stuck past src fuel 0 1 fs some_bytes (omega arith))
