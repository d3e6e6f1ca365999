-- ===== src/Boot/Sorting.antt =====
-- What `pi_sort_boot_mapentries` of kernel/boot.c leaves of an array.
use sync_kernel.Prelude.{
  ℕ, zero, suc, ◌+◌, ◌-◌, ◌≤◌, ◌<◌, ◌≡◌, refl, sym, ap, ◌∙◌, ◌⊎◌, inl, inr, Bool, arith, ◌==◌, ltb,
  leb, if◌then◌else◌, update, Bool-cases, ltb→lt, leb→le,
}
use sync_kernel.Boot.{MapEntry}
use sync_kernel.Boot.Maps.{sift, sort_loop, pi_sort_boot_mapentries}

-- The first `n` entries ascend.
abbrev pub IsSorted : ℕ → (ℕ → MapEntry) → Type 0
IsSorted n a = (x y : ℕ) → x ≤ y → y < n → (a x).base ≤ (a y).base

-- How many of the first `n` entries the test takes.
unfoldable pub occurs : (MapEntry → Bool) → ℕ → (ℕ → MapEntry) → ℕ
occurs p zero a = 0
occurs p (suc n) a = (if p (a n) then 1 else 0) + occurs p n a

-- The two ways of a round.
sift-cases :
    (j : ℕ) (k : MapEntry) (a : ℕ → MapEntry)
    → ((k.base < (a j).base) × (sift (suc j) k a ≡ sift j k (update a (suc j) (a j))))
      ⊎ (((a j).base ≤ k.base) × (sift (suc j) k a ≡ update a (suc j) k))
unfolding sift
sift-cases j k a = elim (Bool-cases (ltb k.base (a j).base)) [
  | inl e ↦ inl (ltb→lt _ _ e, simp e)
  | inr e ↦ inr (ground arith, simp e)
]

sift-above : (j : ℕ) (k : MapEntry) (a : ℕ → MapEntry) (x : ℕ) → j < x → sift j k a x ≡ a x
unfolding sift
sift-above zero k a x h = ground arith
sift-above (suc j) k a x h =
    let rest = sift-above j k (update a (suc j) (a j)) x (omega arith) in ground (arith, rest)

-- A bound of all that goes in is one of all that comes out.
sift-bound :
    (b j : ℕ) (k : MapEntry) (a : ℕ → MapEntry)
    → k.base ≤ b
    → ((x : ℕ) → x < j → (a x).base ≤ b)
    → (x : ℕ) → x ≤ j
    → (sift j k a x).base ≤ b
unfolding sift
sift-bound b zero k a hk h zero l = hk
sift-bound b zero k a hk h (suc x) l = absurd (omega arith)
sift-bound b (suc j) k a hk h x l =
    let a' = update a (suc j) (a j) in
    let below : (y : ℕ) → y < j → (a' y).base ≤ b =
      λ y ly. let hy = h y (omega arith) in ground arith in
    let last = h j (omega arith) in
    let moved : (sift j k a' x).base ≤ b = elim (Bool-cases (ltb j x)) [
      | inl e ↦ rw (sift-above j k a' x (ltb→lt _ _ e)) (ground arith)
      | inr e ↦ sift-bound b j k a' hk below x (ground arith)
    ] in
    let stays : (update a (suc j) k x).base ≤ b = elim (Bool-cases (x == suc j)) [
      | inl e ↦ ground arith
      | inr e ↦ let hx = h x (ground arith) in ground arith
    ] in
    elim (sift-cases j k a) [ inl (lt, e) ↦ rw e moved | inr (le, e) ↦ rw e stays ]

sift-IsSorted :
    (j : ℕ) (k : MapEntry) (a : ℕ → MapEntry) → IsSorted j a → IsSorted (suc j) (sift j k a)
sift-IsSorted zero k a s zero zero l h = omega arith
sift-IsSorted zero k a s (suc x) y l h = absurd (omega arith)
sift-IsSorted zero k a s x (suc y) l h = absurd (omega arith)
sift-IsSorted (suc j) k a s x y l h =
    let a' = update a (suc j) (a j) in
    let last : (sift j k a' (suc j)) ≡ a j =
      sift-above j k a' (suc j) (omega arith) ∙ (ground arith) in
    let s' : IsSorted j a' = λ u v lu lv. let su = s u v lu (omega arith) in ground arith in
    let under : (u : ℕ) → u < j → (a' u).base ≤ (a j).base =
      λ u lu. let su = s u j (omega arith) (omega arith) in ground arith in
    let moved : k.base < (a j).base → (sift j k a' x).base ≤ (sift j k a' y).base = λ lt.
      elim (Bool-cases (ltb j y)) [
        | inl e ↦
            let top : y ≡ suc j = ground arith in
            rw (top, last)
              (elim (Bool-cases (ltb j x)) [
                | inl e' ↦ let same : x ≡ suc j = ground arith in rw (same, last) (omega arith)
                | inr e' ↦ sift-bound (a j).base j k a' (omega arith) under x (ground arith)
              ])
        | inr e ↦ sift-IsSorted j k a' s' x y l (ground arith)
      ] in
    let stays : (a j).base ≤ k.base → (update a (suc j) k x).base ≤ (update a (suc j) k y).base =
      λ le. elim (Bool-cases (y == suc j)) [
        | inl e ↦ elim (Bool-cases (x == suc j)) [
          | inl e' ↦ ground arith
          | inr e' ↦ let sx = s x j (ground arith) (omega arith) in ground arith
        ]
        | inr e ↦ let sx = s x y l (ground arith) in ground arith
      ] in
    elim (sift-cases j k a) [ inl (lt, e) ↦ rw e (moved lt) | inr (le, e) ↦ rw e (stays le) ]

occurs_next :
    (p : MapEntry → Bool) (n : ℕ) (a : ℕ → MapEntry)
    → occurs p (suc n) a ≡ (if p (a n) then 1 else 0) + occurs p n a
unfolding occurs
occurs_next p n a = refl

occurs-above :
    (p : MapEntry → Bool) (n m : ℕ) (e : MapEntry) (a : ℕ → MapEntry)
    → n ≤ m
    → occurs p n (update a m e) ≡ occurs p n a
unfolding occurs
occurs-above p zero m e a h = refl
occurs-above p (suc n) m e a h =
    let rest = occurs-above p n m e a (omega arith) in
    let same : update a m e n ≡ a n = ground arith in simp (same, rest)

sift-occurs :
    (p : MapEntry → Bool) (j : ℕ) (k : MapEntry) (a : ℕ → MapEntry)
    → occurs p (suc j) (sift j k a) ≡ (if p k then 1 else 0) + occurs p j a
unfolding sift
sift-occurs p zero k a =
    occurs_next p 0 (update a 0 k) ∙ (omega (arith, occurs-above p 0 0 k a (omega arith)))
sift-occurs p (suc j) k a =
    let a' = update a (suc j) (a j) in
    let one : MapEntry → ℕ = λ e. if p e then 1 else 0 in
    let rest = sift-occurs p j k a' in
    let same = occurs-above p j (suc j) (a j) a (omega arith) in
    let last : sift j k a' (suc j) ≡ a j =
      sift-above j k a' (suc j) (omega arith) ∙ (ground arith) in
    let above = occurs-above p (suc j) (suc j) k a (omega arith) in
    let here : update a (suc j) k (suc j) ≡ k = ground arith in
    elim (sift-cases j k a) [
      | inl (lt, e) ↦ rw e (
          omega (
            arith,
            occurs_next p (suc j) (sift j k a'),
            occurs_next p j a,
            ap one last,
            rest,
            same,
          ))
      | inr (le, e) ↦
          rw e (omega (arith, occurs_next p (suc j) (update a (suc j) k), ap one here, above))
    ]

-- What is the same among the first `i` entries and among those above counts the same.
occurs_beyond :
    (p : MapEntry → Bool) (i m : ℕ) (a b : ℕ → MapEntry)
    → i ≤ m
    → ((x : ℕ) → i ≤ x → a x ≡ b x)
    → occurs p i a ≡ occurs p i b
    → occurs p m a ≡ occurs p m b
unfolding occurs
occurs_beyond p i zero a b l f e = refl
occurs_beyond p i (suc m) a b l f e = elim (Bool-cases (leb i m)) [
  | inl le ↦
      let rest = occurs_beyond p i m a b (leb→le _ _ le) f e in
      let one : MapEntry → ℕ = λ x. if p x then 1 else 0 in
      omega (arith, occurs_next p m a, occurs_next p m b, rest, ap one (f m (leb→le _ _ le)))
  | inr gt ↦
      let same : suc m ≡ i = ground arith in
      ap (λ k. occurs p k a) same ∙ (e ∙ ap (λ k. occurs p k b) (sym same))
]

sort_loop-IsSorted :
    (n i m : ℕ) (a : ℕ → MapEntry)
    → n + i ≡ m
    → IsSorted i a
    → IsSorted m (sort_loop n i a)
      × ((p : MapEntry → Bool) → occurs p m (sort_loop n i a) ≡ occurs p m a)
      × ((x : ℕ) → m ≤ x → sort_loop n i a x ≡ a x)
unfolding sort_loop
sort_loop-IsSorted zero i m a e s =
    let same : m ≡ i = omega arith in rw same (s, λ p. refl, λ x h. refl)
sort_loop-IsSorted (suc n) i m a e s =
    let a' = sift i (a i) a in
    let rest = sort_loop-IsSorted n (suc i) m a' (omega arith) (sift-IsSorted i (a i) a s) in
    let kept : (x : ℕ) → suc i ≤ x → a' x ≡ a x = λ x h. sift-above i (a i) a x (omega arith) in
    (
      rest.0,
      λ p.
          rest.1 p
          ∙ occurs_beyond p (suc i) m a' a (omega arith) kept
              (sift-occurs p i (a i) a ∙ sym (occurs_next p i a)),
      λ x h. rest.2 x h ∙ kept x (omega arith),
    )

-- After `pi_sort_boot_mapentries` the first `up_to` entries ascend by their base, every test takes
-- as many of them as before, and the entries from `up_to` on are those from before.
pub pi_sort_boot_mapentries-IsSorted :
    (a : ℕ → MapEntry) (up_to : ℕ)
    → IsSorted up_to (pi_sort_boot_mapentries a up_to)
      × ((p : MapEntry → Bool)
          → occurs p up_to (pi_sort_boot_mapentries a up_to) ≡ occurs p up_to a)
      × ((x : ℕ) → up_to ≤ x → pi_sort_boot_mapentries a up_to x ≡ a x)
unfolding pi_sort_boot_mapentries sort_loop
pi_sort_boot_mapentries-IsSorted a zero = (λ x y l h. absurd (omega arith), λ p. refl, λ x h. refl)
pi_sort_boot_mapentries-IsSorted a (suc n) =
    let one : IsSorted 1 a = λ x y l h. let same : x ≡ y = omega arith in rw same (omega arith) in
    let rounds : suc n - 1 ≡ n = omega arith in
    rw rounds (sort_loop-IsSorted n 1 (suc n) a (omega arith) one)
