-- ===== src/Util/Writing.antt =====
-- `named_file_write` of src/tboot_util.c.
use tboot.Base.{
  ℕ, zero, suc, ◌+◌, ◌-◌, ◌<◌, min, ◌≡◌, refl, sym, ap, ◌∙◌, Bool, true, false, some, List, [], ◌∷◌,
  ◌++◌, arith, Text, length, take, drop, length-drop, take_all, ◌==◌, if◌then◌else◌,
}
use mathlib.Core.Path.{subst}
use tboot.Util.{
  Write, wrote, interrupted, write_failed, Written, over, give_up, write_loop, named_file_write,
}

-- No write is interrupted.
abbrev pub Quiet : List Write → Type 0
Quiet [] = Unit
Quiet (interrupted ∷ writes) = ⊥
Quiet (_ ∷ writes) = Quiet writes

take-nil : (n : ℕ) → take {A = ℕ} n [] ≡ []
take-nil zero = refl
take-nil (suc n) = refl

take-extend : (p k : ℕ) (s : Text) → take p s ++ take k (drop p s) ≡ take (p + k) s
take-extend zero k s = let e : k ≡ 0 + k = omega arith in ap (λ n. take n s) e
take-extend (suc p) k [] = take-nil k ∙ sym (take-nil (suc p + k))
take-extend (suc p) k (c ∷ s) =
    let e : suc (p + k) ≡ suc p + k = omega arith in
    ap (λ t. c ∷ t) (take-extend p k s) ∙ ap (λ n. take n (c ∷ s)) e

-- What a loop that succeeds leaves in the file.
Whole : Text → Text → Written → Type 0
Whole old bytes w = w.done ≡ true → w.contents ≡ bytes ++ drop (length bytes) old

if-Whole :
    (old bytes : Text) (b : Bool) (x y : Written)
    → Whole old bytes x
    → (b ≡ false → Whole old bytes y)
    → Whole old bytes (if b then x else y)
if-Whole old bytes true x y hx hy = hx
if-Whole old bytes false x y hx hy = hy refl

write_loop-Whole :
    (writes : List Write) (old bytes : Text) (pos left : ℕ)
    → Quiet writes
    → pos + left ≡ length bytes
    → Whole old bytes (write_loop writes old bytes pos left (take pos bytes))
unfolding write_loop give_up Whole
write_loop-Whole writes old bytes pos zero q e =
    λ _. ap (λ t. over t old) (take_all pos bytes (omega (arith, e)))
write_loop-Whole [] old bytes pos (suc left) q e = λ h. cc h
write_loop-Whole (write_failed ∷ writes) old bytes pos (suc left) q e = λ h. cc h
write_loop-Whole (wrote n ∷ writes) old bytes pos (suc left) q e =
    let k = min n (suc left) in
    if-Whole old bytes (k == 0) _ _ (λ h. cc h)
      (λ some_written.
        subst (λ t. Whole old bytes (write_loop writes old bytes (pos + k) (suc left - k) t))
          (sym (take-extend pos k bytes))
          (write_loop-Whole writes old bytes (pos + k) (suc left - k) q (omega (arith, e))))
write_loop-Whole (interrupted ∷ writes) old bytes pos (suc left) q e = absurd q

-- Where no write is interrupted, a success has written all the bytes; what the file held behind
-- them is still there.
pub named_file_write-whole :
    (old : Text) (writes : List Write) (bytes : Text)
    → Quiet writes
    → (named_file_write (some old) writes bytes).done ≡ true
    → (named_file_write (some old) writes bytes).contents ≡ bytes ++ drop (length bytes) old
unfolding named_file_write Whole
named_file_write-whole old writes bytes q h =
    write_loop-Whole writes old bytes 0 (length bytes) q (omega arith) h

wrote_step :
    (n : ℕ) (writes : List Write) (old bytes : Text) (pos left : ℕ) (written : Text)
    → 0 < n
    → 0 < left
    → write_loop (wrote n ∷ writes) old bytes pos left written
      ≡ write_loop writes old bytes
          (pos + min n left)
          (left - min n left)
          (written ++ take (min n left) (drop pos bytes))
unfolding write_loop
wrote_step n writes old bytes pos zero written hn hl = absurd (omega arith)
wrote_step n writes old bytes pos (suc left) written hn hl =
    let some_written : (min n (suc left) == 0) ≡ false = ground arith in
    ap
      (λ b.
        if b
        then give_up old written
        else write_loop writes old bytes (pos + min n (suc left)) (suc left - min n (suc left))
            (written ++ take (min n (suc left)) (drop pos bytes)))
      some_written

interrupted_step :
    (writes : List Write) (old bytes : Text) (pos left : ℕ) (written : Text)
    → 0 < pos
    → 0 < left
    → write_loop (interrupted ∷ writes) old bytes pos left written
      ≡ write_loop writes old bytes (pos - 1) (suc left) written
unfolding write_loop
interrupted_step writes old bytes pos zero written hp hl = absurd (omega arith)
interrupted_step writes old bytes pos (suc left) written hp hl =
    let inside : (pos == 0) ≡ false = ground arith in
    ap
      (λ b.
        if b
        then record { done = false; contents = over written old; fault = true }
        else write_loop writes old bytes (pos - 1) (suc (suc left)) written)
      inside

finished : Text → Text → Written
finished written old = record { done = true; contents = over written old; fault = false }

-- An interruption after k bytes makes the function succeed with a wrong file: the k-th byte stands
-- in it twice.
named_file_write_interrupted :
    (old bytes : Text) (k : ℕ)
    → 0 < k
    → k < length bytes
    → named_file_write (some old) (wrote k ∷ interrupted ∷ wrote (length bytes) ∷ []) bytes
      ≡ record {
        done = true;
        contents =
            (take k bytes ++ drop (k - 1) bytes)
            ++ drop (length (take k bytes ++ drop (k - 1) bytes)) old;
        fault = false;
      }
unfolding named_file_write finished
named_file_write_interrupted old bytes k pos lt =
    let len = length bytes in
    let first : min k len ≡ k = omega arith in
    let last : min len (suc (len - k)) ≡ suc (len - k) = omega arith in
    let none_left : suc (len - k) - suc (len - k) ≡ 0 = omega arith in
    let same : 0 + k - 1 ≡ k - 1 = omega arith in
    let tail : take (suc (len - k)) (drop (0 + k - 1) bytes) ≡ drop (k - 1) bytes =
      rw same (
        take_all (suc (len - k)) (drop (k - 1) bytes) (omega (arith, length-drop (k - 1) bytes))) in
    wrote_step k (interrupted ∷ wrote len ∷ []) old bytes 0 len [] pos (omega arith)
    ∙ rw first (
        interrupted_step (wrote len ∷ []) old bytes (0 + k) (len - k) (take k bytes) (omega arith)
          (omega arith)
        ∙ wrote_step len [] old bytes (0 + k - 1) (suc (len - k)) (take k bytes) (omega arith)
            (omega arith)
        ∙ rw (last, none_left) (ap (λ t. finished (take k bytes ++ t) old) tail))
