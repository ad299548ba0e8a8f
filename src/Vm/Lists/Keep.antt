-- ===== src/Vm/Lists/Keep.antt =====
-- What a write leaves of a list and of the words of the stack.
use kali_scheme.Prelude.{
  ℕ, zero, suc, ◌+◌, ◌*◌, ◌%◌, ◌^◌, ◌≤◌, ◌<◌, ◌≡◌, ◌∙◌, sym, subst, ◌⊎◌, inl, inr, List, [], ◌∷◌,
  arith,
}
use kali_scheme.Heap.Memory.{Memory, load, load-agree_all}
use kali_scheme.Heap.Copy.{header_address, data_address}
use kali_scheme.Vm.Pair.{
  is_pair, car, cdr, put_pair, put_pair-out, put_pair-is_pair, car-put_pair, cdr-put_pair,
}
use kali_scheme.Vm.Lists.{IsOutside, Holds}

-- The words from `a` upwards.
abbrev pub words : Memory → (a n : ℕ) → List ℕ
words m a zero = []
words m a (suc n) = load m a ∷ words m (a + 4) n

-- The memories agree outside [lo, hi).
abbrev pub Agrees : (lo hi : ℕ) → Memory → Memory → Type 0
Agrees lo hi m m' = (x : ℕ) → (x < lo) ⊎ (hi ≤ x) → m' x ≡ m x

pub load-Agrees :
    (lo hi : ℕ) (m m' : Memory) (a : ℕ)
    → Agrees lo hi m m'
    → (a + 4 ≤ lo) ⊎ (hi ≤ a)
    → load m' a ≡ load m a
load-Agrees lo hi m m' a same (inl h) =
    load-agree_all m m' a (λ x l u. same x (inl (omega (arith, h, u))))
load-Agrees lo hi m m' a same (inr h) =
    load-agree_all m m' a (λ x l u. same x (inr (omega (arith, h, l))))

pub words-Agrees :
    (n lo hi : ℕ) (m m' : Memory) (a : ℕ)
    → Agrees lo hi m m'
    → (a + 4 * n ≤ lo) ⊎ (hi ≤ a)
    → words m' a n ≡ words m a n
words-Agrees zero lo hi m m' a same h = λ i. []
words-Agrees (suc n) lo hi m m' a same h =
    let first = load-Agrees lo hi m m' a same (ground (arith, h)) in
    let others = words-Agrees n lo hi m m' (a + 4) same (ground (arith, h)) in cc (first, others)

pub Agrees-trans :
    (lo hi : ℕ) (m m' m'' : Memory) → Agrees lo hi m m' → Agrees lo hi m' m'' → Agrees lo hi m m''
Agrees-trans lo hi m m' m'' p q x h = q x h ∙ p x h

pub Agrees-wider :
    (lo hi lo' hi' : ℕ) (m m' : Memory)
    → lo' ≤ lo
    → hi ≤ hi'
    → Agrees lo hi m m'
    → Agrees lo' hi' m m'
Agrees-wider lo hi lo' hi' m m' l h same x o = same x (ground (arith, l, h, o))

module _ (lo hi : ℕ) (m m' : Memory) (same : Agrees lo hi m m') where
  is_pair-Agrees : (d : ℕ) → IsOutside lo hi d → is_pair m' d ≡ is_pair m d
  unfolding is_pair
  is_pair-Agrees d o =
      rw (load-Agrees lo hi m m' (header_address d) same (ground (arith, o.0, o.1)))
        (λ i. is_pair m d)

  pub car-Agrees : (d : ℕ) → IsOutside lo hi d → car m' d ≡ car m d
  car-Agrees d o = load-Agrees lo hi m m' (data_address d) same (ground (arith, o.0, o.1))

  pub cdr-Agrees : (d : ℕ) → IsOutside lo hi d → cdr m' d ≡ cdr m d
  cdr-Agrees d o = load-Agrees lo hi m m' (data_address d + 4) same (ground (arith, o.0, o.1))

  pub Holds-Agrees : (d : ℕ) (xs : List ℕ) → Holds lo hi m d xs → Holds lo hi m' d xs
  Holds-Agrees d [] h = h
  Holds-Agrees d (x ∷ xs) (o, (p, (a, r))) = (
    o,
    (
      is_pair-Agrees d o ∙ p,
      (
        car-Agrees d o ∙ a,
        subst (λ e. Holds lo hi m' e xs) (sym (cdr-Agrees d o)) (Holds-Agrees (cdr m d) xs r),
      ),
    ),
  )

pub Holds-within :
    (lo hi lo' hi' : ℕ) (m : Memory) (d : ℕ) (xs : List ℕ)
    → lo ≤ lo'
    → hi' ≤ hi
    → Holds lo hi m d xs
    → Holds lo' hi' m d xs
Holds-within lo hi lo' hi' m d [] l h p = p
Holds-within lo hi lo' hi' m d (x ∷ xs) l h ((o, o'), (p, (a, r))) =
    ((o, ground (arith, l, h, o')), (p, (a, Holds-within lo hi lo' hi' m (cdr m d) xs l h r)))

-- A new pair at the heap pointer `hp`, in front of a list.
pub put_pair-Holds :
    (hp hi : ℕ) (m : Memory) (a d : ℕ) (xs : List ℕ)
    → hp % 4 ≡ 0
    → hp + 12 ≤ hi
    → a < 2 ^ 32
    → d < 2 ^ 32
    → Holds hp hi m d xs
    → Holds (hp + 12) hi (put_pair m hp a d) (hp + 7) (a ∷ xs)
put_pair-Holds hp hi m a d xs aligned room la ld h = (
  (omega arith, inl (omega arith)),
  (
    put_pair-is_pair m hp a d aligned,
    (
      car-put_pair m hp a d la,
      subst (λ e. Holds (hp + 12) hi (put_pair m hp a d) e xs) (sym (cdr-put_pair m hp a d ld))
          (Holds-within hp hi (hp + 12) hi (put_pair m hp a d) d xs (omega arith) (omega arith) (
            Holds-Agrees hp hi m (put_pair m hp a d)
              (λ x o. put_pair-out m hp a d x (ground (arith, room, o))) d xs h)),
    ),
  ),
)
