-- ===== src/Boot/Tags.antt =====
-- What `find_mbt` of kernel/boot.c finds among the tags of the loader.
use sync_kernel.Prelude.{
  ℕ, zero, suc, ◌+◌, ◌*◌, ◌%◌, ◌^◌, ◌≤◌, ◌<◌, ◌≡◌, refl, ◌≢◌, ◌⊎◌, inl, inr, true, some, List, [],
  ◌∷◌, length, arith, ◌==◌, Returns, leb, if◌then◌else◌, Bool-cases,
}
use sync_kernel.Prelude.Words.{add64, invalid_ptr}
use sync_kernel.Boot.Maps.{read32, tag_step, tag_loop, find_mbt}

-- The tags that a walk from `p` on meets before `end`, as pairs of a type and an address: the tag of
-- type 0 is the last one.
pub data Tags (m : ℕ → ℕ) (end : ℕ) : ℕ → List (ℕ × ℕ) → Type 0 where
  past : {p : ℕ} → end ≤ p → Tags m end p []
  last : {p : ℕ} → p < end → read32 m p ≡ 0 → Tags m end p ((0, p) ∷ [])
  next :
      {p : ℕ}
      → {ts : List (ℕ × ℕ)} → p < end
      → read32 m p ≢ 0
      → Tags m end (add64 p (tag_step (read32 m (p + 4)))) ts
      → Tags m end p ((read32 m p, p) ∷ ts)

-- The first tag of a type in a list of tags.
unfoldable pub first_tag : ℕ → List (ℕ × ℕ) → ℕ
first_tag type [] = invalid_ptr
first_tag type ((t, a) ∷ ts) = let rest = first_tag type ts in if t == type then a else rest

tag_loop-Tags :
    (n : ℕ) (m : ℕ → ℕ) (type end p : ℕ) (ts : List (ℕ × ℕ))
    → length ts < n
    → Tags m end p ts
    → tag_loop n m type p end ≡ some (first_tag type ts)
unfolding tag_loop first_tag
tag_loop-Tags zero m type end p ts h c = absurd (omega arith)
tag_loop-Tags (suc n) m type end p ts h (past e) = ground arith
tag_loop-Tags (suc n) m type end p ts h (last e z) = ground arith
tag_loop-Tags (suc n) m type end p ts h (next e z c) =
    let rest = tag_loop-Tags n m type end _ _ (omega arith) c in ground (arith, rest)

-- Where the loader's information is a chain of tags, `find_mbt` returns the first tag of the type
-- that is asked for, or the error pointer where no tag has that type; one round more than there are
-- tags is enough.
pub find_mbt-Tags :
    (n : ℕ) (m : ℕ → ℕ) (mbh type : ℕ) (ts : List (ℕ × ℕ))
    → length ts < n
    → Tags m (add64 mbh (read32 m mbh)) (add64 mbh 8) ts
    → find_mbt n m mbh type ≡ some (first_tag type ts)
unfolding find_mbt
find_mbt-Tags n m mbh type ts h c = tag_loop-Tags n m type _ _ ts h c

-- The tag at an address has a size that leads on, and that 32 bits hold when it is rounded up.
abbrev pub IsSized : (ℕ → ℕ) → ℕ → Type 0
IsSized m p = (0 < read32 m (p + 4)) × (read32 m (p + 4) + 7 < 2 ^ 32)

-- The next tag stands eight bytes on at least.
tag_step-bound :
    (m : ℕ → ℕ) (p end : ℕ)
    → p < end
    → end < 2 ^ 63
    → IsSized m p
    → p + 8 ≤ add64 p (tag_step (read32 m (p + 4)))
tag_step-bound m p end h low (pos, fits) =
    let size = read32 m (p + 4) in
    let up : (size + 7) % 2 ^ 32 ≡ size + 7 = omega arith in rw up (omega arith)

-- What `find_mbt` may return.
abbrev pub IsTag : (ℕ → ℕ) → ℕ → ℕ → ℕ → Type 0
IsTag m type end a = (a ≡ invalid_ptr) ⊎ ((a < end) × (read32 m a ≡ type))

-- The addresses that the sizes lead to, from the first tag on.
pub data Reached (m : ℕ → ℕ) (begin : ℕ) : ℕ → Type 0 where
  here : Reached m begin begin
  onward : {q : ℕ} → Reached m begin q → Reached m begin (add64 q (tag_step (read32 m (q + 4))))

tag_loop-Returns :
    (n : ℕ) (m : ℕ → ℕ) (type begin end p : ℕ)
    → end < 2 ^ 63
    → end ≤ p + 8 * n
    → Reached m begin p
    → ((q : ℕ) → Reached m begin q → q < end → IsSized m q)
    → Returns (IsTag m type end) (tag_loop (suc n) m type p end)
unfolding tag_loop
tag_loop-Returns zero m type begin end p low h r sized =
    let stop : leb end p ≡ true = ground arith in rw stop (inl refl)
tag_loop-Returns (suc n) m type begin end p low h r sized =
    let p' = add64 p (tag_step (read32 m (p + 4))) in
    elim (Bool-cases (leb end p)) [
      | inl stop ↦ rw stop (inl refl)
      | inr go ↦
          let on = tag_step-bound m p end (ground arith) low (sized p r (ground arith)) in
          let rest = tag_loop-Returns n m type begin end p' low (omega arith) (onward r) sized in
          rw go (elim (Bool-cases (read32 m p == type)) [
            | inl found ↦ rw found (inr (ground arith, ground arith))
            | inr other ↦ rw other (elim (Bool-cases (read32 m p == 0)) [
              | inl over ↦ rw over (inl refl)
              | inr more ↦ rw more rest
            ])
          ])
    ]

-- Where the size of every tag that is reached is positive and not so large that its rounding wraps, and
-- the information ends below 2 ^ 63, `find_mbt` ends within a round for every eight bytes, and
-- returns the error pointer or the address of a tag of the type, in front of the end.
pub find_mbt-Returns :
    (n : ℕ) (m : ℕ → ℕ) (mbh type : ℕ)
    → add64 mbh (read32 m mbh) < 2 ^ 63
    → add64 mbh (read32 m mbh) ≤ add64 mbh 8 + 8 * n
    → ((q : ℕ) → Reached m (add64 mbh 8) q → q < add64 mbh (read32 m mbh) → IsSized m q)
    → Returns (IsTag m type (add64 mbh (read32 m mbh))) (find_mbt (suc n) m mbh type)
unfolding find_mbt
find_mbt-Returns n m mbh type low h sized = tag_loop-Returns n m type _ _ _ low h here sized
