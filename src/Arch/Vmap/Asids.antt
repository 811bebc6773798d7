-- ===== src/Arch/Vmap/Asids.antt =====
-- The slots of arch/i386/vmap.c: which page tables an address space gets.
use twcos.Common.{
  ℕ, zero, suc, ◌+◌, ◌≤◌, ◌<◌, ◌≡◌, ◌≢◌, refl, sym, ap, ◌∙◌, inl, inr, true, false, Option, none,
  some, List, [], ◌∷◌, arith, ltb, ◌==◌, if◌then◌else◌, length, get_or, set, length-set,
  get_or-set_self, Bool-cases, Option-cases, ltb→lt, lt→ltb, ==→eq, ==_refl, ne→==,
}
use twcos.Arch.Vmap.{Asid, Vmap, find_vid, lowest, use_asid, new_asid, vmap_get_pgtable, int32_max}

abbrev pub slot : List Asid → ℕ → Asid
slot asids i = get_or asids i (record { vid = 0; seq = 0 })

-- The slot of an address space that has one; the kernel's is the first.
unfoldable pub asid_slot : ℕ → List Asid → Option ℕ
unfolding find_vid
asid_slot vid asids = if vid == 0 then some 0 else find_vid vid asids

-- There are eight slots, and none is later than the counter.
pub record IsClocked (asids : List Asid) (seq : ℕ) : Type 0 where
  pub eight : length asids ≡ 8
  pub past : (i : ℕ) → (slot asids i).seq ≤ seq

-- `i` is the first slot of `vid`.
pub found_slot :
    (vid : ℕ) (asids : List Asid) (i : ℕ)
    → find_vid vid asids ≡ some i
    → (i < length asids) × ((slot asids i).vid ≡ vid)
unfolding find_vid
found_slot vid [] i e = cc
found_slot vid (a ∷ asids) i e = elim (Bool-cases (vid == a.vid)) [
  | inl same ↦
      let e0 : some 0 ≡ some i = rw same at e in
      let z : i ≡ 0 = cc in rw z (omega arith, sym (==→eq vid a.vid same))
  | inr other ↦ elim (Option-cases (find_vid vid asids)) [
    | inl missing ↦ ground (arith, missing)
    | inr (k, found) ↦
        let ih = found_slot vid asids k found in
        let z : i ≡ suc k = ground (arith, found) in rw z (omega arith, ih.1)
  ]
]

-- A new time in the slot of `vid` leaves every address space where it is.
pub find_vid-set :
    (v : ℕ) (asids : List Asid) (i q : ℕ)
    → find_vid v (set asids i (record (slot asids i) { seq = q })) ≡ find_vid v asids
unfolding find_vid
find_vid-set v [] i q = refl
find_vid-set v (a ∷ asids) zero q = refl
find_vid-set v (a ∷ asids) (suc i) q = rw (find_vid-set v asids i q)

-- No slot has a `seq` below `low`.
abbrev pub NoneBelow : ℕ → List Asid → Type 0
NoneBelow low asids = (j : ℕ) → j < length asids → low ≤ (slot asids j).seq

NoneBelow-cons :
    (low : ℕ) (a : Asid) (asids : List Asid)
    → low ≤ a.seq
    → NoneBelow low asids
    → NoneBelow low (a ∷ asids)
NoneBelow-cons low a asids le h zero g = le
NoneBelow-cons low a asids le h (suc j) g = h j (omega arith)

-- The slot that the second loop settles on, from slot `i` on: the one kept so far if no `seq` is
-- below `low`, otherwise one whose `seq` is below `low` and no higher than any.
data Lowest (asids : List Asid) (i low : ℕ) (lowi : Option ℕ) (r : Option ℕ) : Type 0 where
  kept : r ≡ lowi → NoneBelow low asids → Lowest asids i low lowi r
  found :
      (k : ℕ)
      → r ≡ some (i + k)
      → k < length asids
      → (slot asids k).seq < low
      → NoneBelow (slot asids k).seq asids
      → Lowest asids i low lowi r

lowest-Lowest :
    (asids : List Asid) (i low : ℕ) (lowi : Option ℕ)
    → Lowest asids i low lowi (lowest asids i low lowi)
unfolding lowest
lowest-Lowest [] i low lowi = kept refl (λ j h. absurd (omega arith))
lowest-Lowest (a ∷ asids) i low lowi = elim (Bool-cases (ltb a.seq low)) [
  | inl below ↦ rw below (lower (lowest-Lowest asids (i + 1) a.seq (some i)) (ltb→lt _ _ below))
  | inr above ↦ rw above (higher (lowest-Lowest asids (i + 1) low lowi) (ground arith))
]
  where
    lower :
        {r : Option ℕ}
        → Lowest asids (i + 1) a.seq (some i) r
        → a.seq < low
        → Lowest (a ∷ asids) i low lowi r
    lower (kept e h) lt =
        found 0 (e ∙ ap some (omega arith)) (omega arith) lt
          (NoneBelow-cons a.seq a asids (omega arith) h)
    lower (found k e inside b h) lt =
        found (suc k) (e ∙ ap some (omega arith)) (omega arith) (omega arith)
          (NoneBelow-cons _ a asids (omega arith) h)

    higher :
        {r : Option ℕ}
        → Lowest asids (i + 1) low lowi r
        → low ≤ a.seq
        → Lowest (a ∷ asids) i low lowi r
    higher (kept e h) le = kept e (NoneBelow-cons low a asids le h)
    higher (found k e inside b h) le =
        found (suc k) (e ∙ ap some (omega arith)) (omega arith) b
          (NoneBelow-cons _ a asids (omega arith) h)

-- What a call does to the slots: the space now has slot `i`, and the directories, the memory and
-- the allocator stay.
pub record HasSlot (vid : ℕ) (s : Vmap) (i : ℕ) (asids : List Asid) (seq : ℕ) : Type 0 where
  pub run : vmap_get_pgtable vid s ≡ some (i, record s { asids = asids; seq = seq })
  pub inside : i < 8
  pub held : asid_slot vid asids ≡ some i
  pub clocked : IsClocked asids seq
  pub soon : seq ≤ s.seq + 1

set_past :
    (asids : List Asid) (i j v q : ℕ)
    → ((k : ℕ) → (slot asids k).seq ≤ q)
    → (slot (set asids i (record { vid = v; seq = q })) j).seq ≤ q
set_past [] i j v q h = h j
set_past (a ∷ asids) zero zero v q h = omega arith
set_past (a ∷ asids) zero (suc j) v q h = h (suc j)
set_past (a ∷ asids) (suc i) zero v q h = h 0
set_past (a ∷ asids) (suc i) (suc j) v q h = set_past asids i j v q (λ k. h (suc k))

set-IsClocked :
    (asids : List Asid) (i v q q' : ℕ)
    → IsClocked asids q
    → q ≤ q'
    → IsClocked (set asids i (record { vid = v; seq = q' })) q'
set-IsClocked asids i v q q' c le = record {
  eight = length-set asids i _ ∙ c.eight;
  past = λ j. set_past asids i j v q' (λ k. omega (arith, c.past k));
}

-- An address space that has a slot keeps it: the call changes the time of that slot alone.
pub vmap_get_pgtable-held :
    (vid : ℕ) (s : Vmap) (i : ℕ)
    → IsClocked s.asids s.seq
    → asid_slot vid s.asids ≡ some i
    → (asids : List Asid) × HasSlot vid s i asids s.seq
      × ((v : ℕ) → asid_slot v asids ≡ asid_slot v s.asids)
unfolding vmap_get_pgtable asid_slot use_asid
vmap_get_pgtable-held vid s i c h = elim (Bool-cases (vid == 0)) [
  | inl kernel ↦
      let h0 : some 0 ≡ some i = rw kernel at h in
      let z : 0 ≡ i = cc in
      (
        s.asids,
        record {
          run = rw kernel (ap (λ k. some (k, s)) z);
          inside = omega arith;
          held = h;
          clocked = c;
          soon = omega arith;
        },
        λ v. refl,
      )
  | inr user ↦
      let h0 : find_vid vid s.asids ≡ some i = rw user at h in
      let new = set s.asids i (record (slot s.asids i) { seq = s.seq }) in
      (
        new,
        record {
          run = rw (user, h0);
          inside = omega (arith, c.eight, (found_slot vid s.asids i h0).0);
          held = rw user (find_vid-set vid s.asids i s.seq ∙ h0);
          clocked = set-IsClocked s.asids i _ s.seq s.seq c (omega arith);
          soon = omega arith;
        },
        λ v. ap (λ r. if v == 0 then some 0 else r) (find_vid-set v s.asids i s.seq),
      )
]

find_vid-set_new :
    (v : ℕ) (asids : List Asid) (i q : ℕ)
    → find_vid v asids ≡ none
    → i < length asids
    → find_vid v (set asids i (record { vid = v; seq = q })) ≡ some i
unfolding find_vid
find_vid-set_new v [] i q h lt = absurd (omega arith)
find_vid-set_new v (a ∷ asids) zero q h lt = rw (==_refl v)
find_vid-set_new v (a ∷ asids) (suc i) q h lt = elim (Bool-cases (v == a.vid)) [
  | inl same ↦ ground (arith, same)
  | inr other ↦
      let missing : find_vid v asids ≡ none = ground (arith, other) in
      rw (other, find_vid-set_new v asids i q missing (omega arith))
]

find_vid-set_ne :
    (v w : ℕ) (asids : List Asid) (i j q : ℕ)
    → v ≢ w
    → i ≢ j
    → find_vid v asids ≡ some j
    → find_vid v (set asids i (record { vid = w; seq = q })) ≡ some j
unfolding find_vid
find_vid-set_ne v w [] i j q ne apart h = h
find_vid-set_ne v w (a ∷ asids) i j q ne apart h = elim (Bool-cases (v == a.vid)) [
  | inl same ↦ let h0 : some 0 ≡ some j = rw same at h in first i j same apart cc
  | inr other ↦ elim (Option-cases (find_vid v asids)) [
    | inl missing ↦ ground (arith, missing, other)
    | inr (k, at_k) ↦
        let z : j ≡ suc k = ground (arith, at_k, other) in
        rw z (
          later i k other at_k (λ e. apart (e ∙ sym z))
            (λ i' h'. find_vid-set_ne v w asids i' k q ne h' at_k))
  ]
]
  where
    first :
        (i j : ℕ)
        → (v == a.vid) ≡ true
        → i ≢ j
        → j ≡ 0
        → find_vid v (set (a ∷ asids) i (record { vid = w; seq = q })) ≡ some j
    first zero j same apart z = absurd (apart (sym z))
    first (suc i) j same apart z = rw (same, z)

    later :
        (i k : ℕ)
        → (v == a.vid) ≡ false
        → find_vid v asids ≡ some k
        → i ≢ suc k
        → ((i' : ℕ) → i' ≢ k → find_vid v (set asids i' (record { vid = w; seq = q })) ≡ some k)
        → find_vid v (set (a ∷ asids) i (record { vid = w; seq = q })) ≡ some (suc k)
    later zero k other at_k apart ih = rw (ne→== v w ne, at_k)
    later (suc i) k other at_k apart ih = rw (other, ih i (λ e. apart (ap suc e)))

-- The address space has slot `i`, which was one of the lowest `seq`, with all that is mapped there;
-- every other address space keeps its slot.
pub record Evicted (vid : ℕ) (s : Vmap) (i : ℕ) (asids : List Asid) (seq : ℕ) : Type 0 where
  pub taken : HasSlot vid s i asids seq
  pub oldest : NoneBelow (slot s.asids i).seq s.asids
  pub newest : (slot asids i).seq ≡ s.seq + 1
  pub others : (v j : ℕ) → v ≢ vid → find_vid v s.asids ≡ some j → i ≢ j → find_vid v asids ≡ some j

-- A call for an address space without a slot gives it one of those with the lowest `seq`, and moves
-- the count on into that slot's; every address space that had another slot keeps it.
pub vmap_get_pgtable-Evicted :
    (vid : ℕ) (s : Vmap)
    → IsClocked s.asids s.seq
    → vid ≢ 0
    → find_vid vid s.asids ≡ none
    → s.seq < int32_max
    → (i : ℕ) × (asids : List Asid) × Evicted vid s i asids (s.seq + 1)
unfolding vmap_get_pgtable asid_slot new_asid
vmap_get_pgtable-Evicted vid s c user missing early =
    settle (lowest-Lowest s.asids 0 int32_max none)
  where
    settle :
        Lowest s.asids 0 int32_max none (lowest s.asids 0 int32_max none)
        → (i : ℕ) × (asids : List Asid) × Evicted vid s i asids (s.seq + 1)
    settle (kept e h) = absurd (omega (arith, h 0, c.eight, c.past 0))
    settle (found k e inside b h) =
        let new : List Asid = set s.asids k (record { vid = vid; seq = s.seq + 1 }) in
        let z : lowest s.asids 0 int32_max none ≡ some k = e ∙ ap some (omega arith) in
        (
          k,
          new,
          record {
            taken = record {
              run = rw (ne→== vid 0 user, missing, new_asid, z, lt→ltb _ _ early);
              inside = omega (arith, c.eight);
              held = rw (ne→== vid 0 user) (find_vid-set_new vid s.asids k _ missing inside);
              clocked = set-IsClocked s.asids k vid s.seq (s.seq + 1) c (omega arith);
              soon = omega arith;
            };
            oldest = h;
            newest = ap (λ (a : Asid). a.seq) (get_or-set_self s.asids k _ _ inside);
            others = λ v j ne held apart. find_vid-set_ne v vid s.asids k j _ ne apart held;
          },
        )

-- Whatever the address space, the call returns a slot for it, as long as `seq` does not overflow.
pub vmap_get_pgtable-HasSlot :
    (vid : ℕ) (s : Vmap)
    → IsClocked s.asids s.seq
    → s.seq < int32_max
    → (i : ℕ) × (asids : List Asid) × (seq : ℕ) × HasSlot vid s i asids seq
unfolding asid_slot
vmap_get_pgtable-HasSlot vid s c early = elim (Option-cases (asid_slot vid s.asids)) [
  | inr (i, held) ↦ let r = vmap_get_pgtable-held vid s i c held in (i, r.0, s.seq, r.1)
  | inl missing ↦ elim (Bool-cases (vid == 0)) [
    | inl kernel ↦ ground (arith, missing, kernel)
    | inr user ↦
        let h : find_vid vid s.asids ≡ none = rw user at missing in
        let r = vmap_get_pgtable-Evicted vid s c (ground (arith, user)) h early in
        (r.0, r.1, s.seq + 1, r.2.taken)
  ]
]
