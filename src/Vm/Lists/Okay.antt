-- ===== src/Vm/Lists/Okay.antt =====
-- What `okay_argument_list` accepts: the hare and the tortoise on a chain of pairs.
use kali_scheme.Prelude.{
  ℕ, zero, suc, ◌+◌, ◌≤◌, ◌<◌, ◌≡◌, ◌↔◌, ◌∙◌, sym, subst, ap, refl, inl, inr, Bool, true, false,
  arith, ◌==◌, ==→≡, Bool-cases,
}
use kali_scheme.Heap.Memory.{Memory}
use kali_scheme.Heap.Trace.{Run, finished}
use kali_scheme.Vm.Pair.{is_pair, cdr, schnull}
use kali_scheme.Vm.Lists.{okay_loop, okay_argument_list}

-- A list of `n` pairs, wherever they lie.
abbrev pub Proper : Memory → (d n : ℕ) → Type 0
Proper m d zero = d ≡ schnull
Proper m d (suc n) = (is_pair m d ≡ true) × Proper m (cdr m d) n

pub is_pair-schnull : (m : Memory) → is_pair m schnull ≡ false
unfolding is_pair
is_pair-schnull m = refl

-- A list has one length.
Proper-unique : (m : Memory) (d a b : ℕ) → Proper m d a → Proper m d b → a ≡ b
Proper-unique m d zero zero p q = refl
Proper-unique m d zero (suc b) p q =
    let no : false ≡ true = sym (is_pair-schnull m) ∙ ap (is_pair m) (sym p) ∙ q.0 in cc no
Proper-unique m d (suc a) zero p q =
    let no : false ≡ true = sym (is_pair-schnull m) ∙ ap (is_pair m) (sym q) ∙ p.0 in cc no
Proper-unique m d (suc a) (suc b) p q = ap suc (Proper-unique m (cdr m d) a b p.1 q.1)

pub pair-not_schnull : (m : Memory) (d : ℕ) → is_pair m d ≡ true → (schnull == d) ≡ false
pair-not_schnull m d p = elim (Bool-cases (schnull == d)) [
  | inl e ↦
      let no : false ≡ true = sym (is_pair-schnull m) ∙ ap (is_pair m) (==→≡ schnull d e) ∙ p in
      cc no
  | inr e ↦ e
]

module _ (m : Memory) where
  at_end :
      (k len slow : ℕ) (b : Bool) → okay_loop (suc k) m schnull len slow b ≡ finished (true, len)
  unfolding okay_loop
  at_end k len slow b = refl

  pub first_move :
      (k fast len slow : ℕ)
      → is_pair m fast ≡ true
      → okay_loop (suc k) m fast len slow false ≡ okay_loop k m (cdr m fast) (1 + len) slow true
  unfolding okay_loop
  first_move k fast len slow p = rw (pair-not_schnull m fast p, p, okay_loop) refl

  pub second_move :
      (k fast len slow : ℕ)
      → is_pair m fast ≡ true
      → (fast == slow) ≡ false
      → okay_loop (suc k) m fast len slow true
        ≡ okay_loop k m (cdr m fast) (1 + len) (cdr m slow) false
  unfolding okay_loop
  second_move k fast len slow p e = rw (pair-not_schnull m fast p, p, e, okay_loop) refl

  pub met :
      (k fast len slow : ℕ)
      → is_pair m fast ≡ true
      → (fast == slow) ≡ true
      → okay_loop (suc k) m fast len slow true ≡ finished (false, 0)
  unfolding okay_loop
  met k fast len slow p e = rw (pair-not_schnull m fast p, p, e, okay_loop) refl

  -- The hare is ahead of the tortoise on a list.
  abbrev Behind : (move_slow : Bool) → (n s : ℕ) → Type 0
  Behind true n s = n < s
  Behind false n s = n ≤ s

  ahead-differs :
      (fast slow n s : ℕ) → Proper m fast n → Proper m slow s → n < s → (fast == slow) ≡ false
  ahead-differs fast slow n s p q lt = elim (Bool-cases (fast == slow)) [
    | inl e ↦
        let same : n ≡ s =
          Proper-unique m slow n s (subst (λ d. Proper m d n) (==→≡ fast slow e) p) q in
        absurd (omega (arith, same, lt))
    | inr e ↦ e
  ]

  okay_loop-Proper :
      (k fast len slow n s : ℕ) (b : Bool)
      → Proper m fast n
      → Proper m slow s
      → Behind b n s
      → n < k
      → okay_loop k m fast len slow b ≡ finished (true, len + n)
  okay_loop-Proper zero fast len slow n s b p q h fuel = absurd (omega (arith, fuel))
  okay_loop-Proper (suc k) fast len slow zero s b p q h fuel =
      ap (λ d. okay_loop (suc k) m d len slow b) p
      ∙ at_end k len slow b
      ∙ ap (λ (l : ℕ). finished (true, l)) (omega arith)
  okay_loop-Proper (suc k) fast len slow (suc n) s false p q h fuel =
      first_move k fast len slow p.0
      ∙ okay_loop-Proper k (cdr m fast) (1 + len) slow n s true p.1 q (omega arith) (omega arith)
      ∙ ap (λ (l : ℕ). finished (true, l)) (omega arith)
  okay_loop-Proper (suc k) fast len slow (suc n) zero true p q h fuel = absurd (omega (arith, h))
  okay_loop-Proper (suc k) fast len slow (suc n) (suc s) true p q h fuel =
      second_move k fast len slow p.0 (ahead-differs fast slow (suc n) (suc s) p q h)
      ∙ okay_loop-Proper k (cdr m fast) (1 + len) (cdr m slow) n s false p.1 q.1 (omega arith)
          (omega arith)
      ∙ ap (λ (l : ℕ). finished (true, l)) (omega arith)

abbrev value : Run (Bool × ℕ) → Bool × ℕ
value (finished r) = r
value _ = (false, 0)

abbrev Accepts : Memory → (fast len r : ℕ) → Type 0
Accepts m fast len r = (n : ℕ) × (r ≡ len + n) × Proper m fast n

module _ (m : Memory) where
  more :
      (fast len r : ℕ)
      → is_pair m fast ≡ true
      → Accepts m (cdr m fast) (1 + len) r
      → Accepts m fast len r
  more fast len r p (n, e, q) = (suc n, omega (arith, e), (p, q))

  pairs :
      (k fast len slow r : ℕ) (b : Bool)
      → ((len' slow' : ℕ) (b' : Bool)
          → okay_loop k m (cdr m fast) len' slow' b' ≡ finished (true, r)
          → Accepts m (cdr m fast) len' r)
      → okay_loop (suc k) m fast len slow b ≡ finished (true, r)
      → is_pair m fast ≡ true
      → Accepts m fast len r
  pairs k fast len slow r false rec h t =
      more fast len r t (rec (1 + len) slow true (sym (first_move m k fast len slow t) ∙ h))
  pairs k fast len slow r true rec h t = elim (Bool-cases (fast == slow)) [
    | inl e ↦ cc (ap (λ v. (value v).0) (sym (met m k fast len slow t e) ∙ h))
    | inr e ↦
        more fast len r t
          (rec (1 + len) (cdr m slow) false (sym (second_move m k fast len slow t e) ∙ h))
  ]

  okay_loop-sound :
      (k fast r len slow : ℕ) (b : Bool)
      → okay_loop k m fast len slow b ≡ finished (true, r)
      → Accepts m fast len r
  unfolding okay_loop
  okay_loop-sound zero fast r len slow b h = cc h
  okay_loop-sound (suc k) fast r len slow b h = elim (Bool-cases (schnull == fast)) [
    | inl e ↦
        let at : okay_loop (suc k) m fast len slow b ≡ finished (true, len) =
          rw (e, okay_loop) refl in
        (0, omega (arith, ap (λ v. (value v).1) (sym at ∙ h)), sym (==→≡ schnull fast e))
    | inr e ↦ elim (Bool-cases (is_pair m fast)) [
      | inr f ↦
          let at : okay_loop (suc k) m fast len slow b ≡ finished (false, 0) =
            rw (e, f, okay_loop) refl in
          cc (ap (λ v. (value v).0) (sym at ∙ h))
      | inl t ↦ pairs k fast len slow r b (okay_loop-sound k (cdr m fast) r) h t
    ]
  ]

-- With fuel for more rounds than `n`, `okay_argument_list` accepts an argument with the length `n`
-- exactly when the argument is a list of `n` pairs.
pub okay_argument_list-Proper :
    (k : ℕ) (m : Memory) (d n : ℕ)
    → n < k
    → (okay_argument_list k m d ≡ finished (true, n)) ↔ Proper m d n
unfolding okay_argument_list
okay_argument_list-Proper k m d n fuel = (
  (λ h.
      let (n', e, p) = okay_loop-sound m k d n 0 d false h in
      subst (Proper m d) (omega (arith, e)) p),
  (λ p.
      okay_loop-Proper m k d 0 d n n false p p (omega arith) fuel
      ∙ ap (λ (l : ℕ). finished (true, l)) (omega arith)),
)
