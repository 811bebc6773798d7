-- ===== src/Libk/Slab/Collect.antt =====
-- The mark phase of libk/slab.c: which slots it marks.
use twcos.Common.{
  ℕ, ◌≤◌, ◌≡◌, ◌⊎◌, refl, sym, ap, ◌∙◌, Bool, true, false, not, Option, none, some, List, [], ◌∷◌,
  arith, All, All-imp, Bool-cases, inl, inr,
}
use twcos.Libk.Slab.{SlabType, Slab, slab_get, slot_of, available_at, pointers}
use twcos.Libk.Slab.Marks.{AreFull, total, Cleared}

pub of_not : (b : Bool) → not b ≡ true → b ≡ false
of_not true h = sym h
of_not false h = refl

abbrev pub In : ℕ → List ℕ → Type 0
In p [] = 1 ≤ 0
In p (q ∷ ps) = (p ≡ q) ⊎ In p ps

-- The pointers that the mark phase can come to: those it starts from, and those in a slot that one of
-- them points to.
pub data Reach (memory : ℕ → ℕ) (heap : List Slab) (roots : List ℕ) : ℕ → Type 0 where
  root : {p : ℕ} → In p roots → Reach memory heap roots p
  step :
      {p q page : ℕ} {t : SlabType}
      → Reach memory heap roots p
      → slab_get heap p ≡ some (page, t)
      → In q (pointers memory t p)
      → Reach memory heap roots q

-- No slot, or a slot that is not available.
abbrev pub slot_marked : List Slab → ℕ → Option (ℕ × SlabType) → Bool
slot_marked heap p none = true
slot_marked heap p (some (page, t)) = not (available_at heap page (slot_of page t p))

abbrev pub is_marked : List Slab → ℕ → Bool
is_marked heap p = slot_marked heap p (slab_get heap p)

module _ (memory : ℕ → ℕ) where
  Reach-Reach :
      (heap heap' : List Slab) (ps qs : List ℕ) (r : ℕ)
      → ((p : ℕ) → slab_get heap' p ≡ slab_get heap p)
      → ((p : ℕ) → In p ps → Reach memory heap' qs p)
      → Reach memory heap ps r
      → Reach memory heap' qs r
  Reach-Reach heap heap' ps qs r same from (root i) = from r i
  Reach-Reach heap heap' ps qs r same from (step {p} w e i) =
      step (Reach-Reach heap heap' ps qs p same from w) (same p ∙ e) i

  -- Why a slot is marked: a pointer to it can be come to, and all that it leads to is marked too.
  abbrev pub Reason : List Slab → List ℕ → (page slot : ℕ) → List Slab → Type 0
  Reason heap ps q j heap' =
      (r : ℕ) × (t : SlabType) × Reach memory heap ps r
      × (slab_get heap r ≡ some (q, t))
      × (j ≡ slot_of q t r)
      × All (λ c. is_marked heap' c ≡ true) (pointers memory t r)

  -- What marking from some pointers does to a heap.
  pub record Marked (heap : List Slab) (ps : List ℕ) (heap' : List Slab) : Type 0 where
    pub full : AreFull heap'
    pub fewer : total heap' ≤ total heap
    pub same : (p : ℕ) → slab_get heap' p ≡ slab_get heap p
    pub less : (q j : ℕ) → available_at heap q j ≡ false → available_at heap' q j ≡ false
    pub done : All (λ p. is_marked heap' p ≡ true) ps
    pub reason :
        (q j : ℕ)
        → available_at heap q j ≡ true
        → available_at heap' q j ≡ false
        → Reason heap ps q j heap'

  is_marked-less :
      (heap heap' : List Slab) (p : ℕ)
      → ((p : ℕ) → slab_get heap' p ≡ slab_get heap p)
      → ((q j : ℕ) → available_at heap q j ≡ false → available_at heap' q j ≡ false)
      → is_marked heap p ≡ true
      → is_marked heap' p ≡ true
  is_marked-less heap heap' p same less h = rw (same p) (at_slot (slab_get heap p) h)
    where
      at_slot :
          (o : Option (ℕ × SlabType)) → slot_marked heap p o ≡ true → slot_marked heap' p o ≡ true
      at_slot none h = refl
      at_slot (some (page, t)) h = ap not (less page (slot_of page t p) (of_not _ h))

  -- Marking from one pointer, and then from others.
  pub Marked-then :
      (heap heap1 heap2 : List Slab) (p : ℕ) (ps : List ℕ)
      → Marked heap (p ∷ []) heap1
      → Marked heap1 ps heap2
      → Marked heap (p ∷ ps) heap2
  Marked-then heap heap1 heap2 p ps m n = record {
    full = n.full;
    fewer = omega (arith, m.fewer, n.fewer);
    same = λ q. n.same q ∙ m.same q;
    less = λ q j h. n.less q j (m.less q j h);
    done = (later p m.done.0, n.done);
    reason = λ q j a b. elim (Bool-cases (available_at heap1 q j)) [
      | inl c ↦ second q j (n.reason q j c b)
      | inr c ↦ first q j (m.reason q j a c)
    ];
  }
    where
      later : (c : ℕ) → is_marked heap1 c ≡ true → is_marked heap2 c ≡ true
      later c h = is_marked-less heap1 heap2 c n.same n.less h

      first : (q j : ℕ) → Reason heap (p ∷ []) q j heap1 → Reason heap (p ∷ ps) q j heap2
      first q j (r, t, w, e, at, marks) = (
        r,
        t,
        Reach-Reach heap heap (p ∷ []) (p ∷ ps) r (λ c. refl) (λ c i. root (single c i)) w,
        e,
        at,
        All-imp later (pointers memory t r) marks,
      )
        where
          single : (c : ℕ) → In c (p ∷ []) → In c (p ∷ ps)
          single c (inl e) = inl e
          single c (inr i) = absurd (omega (arith, i))

      second : (q j : ℕ) → Reason heap1 ps q j heap2 → Reason heap (p ∷ ps) q j heap2
      second q j (r, t, w, e, at, marks) = (
        r,
        t,
        Reach-Reach heap1 heap ps (p ∷ ps) r (λ c. sym (m.same c)) (λ c i. root (inr i)) w,
        sym (m.same r) ∙ e,
        at,
        marks,
      )

  -- Marking the slot that a pointer points to, and then from the pointers in it.
  pub Marked-slot :
      (heap heap1 heap2 : List Slab) (p page : ℕ) (t : SlabType)
      → slab_get heap p ≡ some (page, t)
      → ((q : ℕ) → slab_get heap1 q ≡ slab_get heap q)
      → Cleared heap page (slot_of page t p) heap1
      → Marked heap1 (pointers memory t p) heap2
      → Marked heap (p ∷ []) heap2
  Marked-slot heap heap1 heap2 p page t e same c n = record {
    full = n.full;
    fewer = omega (arith, c.fewer, n.fewer);
    same = λ q. n.same q ∙ same q;
    less = λ q j h. n.less q j (c.less q j h);
    done = (rw (n.same p ∙ same p ∙ e) (ap not (n.less page (slot_of page t p) c.here)), tt);
    reason = λ q j a b. elim (Bool-cases (available_at heap1 q j)) [
      | inl h ↦ inside q j (n.reason q j h b)
      | inr h ↦ own q j (c.there q j a h)
    ];
  }
    where
      own : (q j : ℕ) → (q ≡ page) × (j ≡ slot_of page t p) → Reason heap (p ∷ []) q j heap2
      own q j (q≡page, at) = (
        p,
        t,
        root (inl refl),
        e ∙ ap (λ q. some (q, t)) (sym q≡page),
        at ∙ ap (λ q. slot_of q t p) (sym q≡page),
        n.done,
      )

      inside :
          (q j : ℕ) → Reason heap1 (pointers memory t p) q j heap2 → Reason heap (p ∷ []) q j heap2
      inside q j (r, t', w, e', at, marks) = (
        r,
        t',
        Reach-Reach heap1 heap (pointers memory t p) (p ∷ []) r (λ c. sym (same c))
            (λ c i. step (root (inl refl)) e i) w,
        sym (same r) ∙ e',
        at,
        marks,
      )
