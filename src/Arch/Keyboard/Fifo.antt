-- ===== src/Arch/Keyboard/Fifo.antt =====
-- The ring of arch/i386/console.c is a first-in first-out queue of at most 255 scan codes.
use twcos.Common.{
  ℕ, zero, suc, ◌+◌, ◌-◌, ◌≤◌, ◌<◌, ◌≡◌, refl, ap, ap₂, sym, ◌∙◌, true, false, List, [], ◌∷◌, ◌++◌,
  arith, ◌==◌, if◌then◌else◌, length, get_or, set, Bool-cases, inl, inr, length-set,
  get_or-set_self, get_or-set_ne, ne→==,
}
use twcos.Arch.Keyboard.{KeyQueue, keyq_ptr, keyb_isr, keyq_empty, keyq_get}

pub record IsValid (q : KeyQueue) : Type 0 where
  pub size : length q.keyq ≡ 256
  pub order : q.keytail ≤ q.keyhead
  pub room : q.keyhead ≤ q.keytail + 255

-- The `n` codes from position `i` on.
abbrev pub window : List ℕ → ℕ → ℕ → List ℕ
window codes i zero = []
window codes i (suc n) = get_or codes (keyq_ptr i) 0 ∷ window codes (i + 1) n

-- The waiting codes, the oldest first.
abbrev pub waiting : KeyQueue → List ℕ
waiting q = window q.keyq q.keytail (q.keyhead - q.keytail)

window-set :
    (codes : List ℕ) (i n at v : ℕ)
    → i + n ≤ at
    → at < i + 256
    → window (set codes (keyq_ptr at) v) i n ≡ window codes i n
window-set codes i zero at v h k = refl
window-set codes i (suc n) at v h k =
    ap₂ ◌∷◌ (get_or-set_ne codes (keyq_ptr at) (keyq_ptr i) v 0 (omega arith))
      (window-set codes (i + 1) n at v (omega arith) (omega arith))

window-snoc :
    (codes : List ℕ) (i n : ℕ)
    → window codes i (suc n) ≡ window codes i n ++ (get_or codes (keyq_ptr (i + n)) 0 ∷ [])
window-snoc codes i zero = ap (λ k. get_or codes (keyq_ptr k) 0 ∷ []) (omega arith)
window-snoc codes i (suc n) =
    ap (λ w. get_or codes (keyq_ptr i) 0 ∷ w)
      (window-snoc codes (i + 1) n
        ∙ ap (λ k. window codes (i + 1) n ++ (get_or codes (keyq_ptr k) 0 ∷ [])) (omega arith))

-- A key stroke goes behind the waiting codes, or is dropped where 255 wait; the queue stays valid.
pub waiting-keyb_isr :
    (scancode : ℕ) (q : KeyQueue)
    → IsValid q
    → IsValid (keyb_isr scancode q)
      × (waiting (keyb_isr scancode q)
          ≡ (if q.keyhead - q.keytail == 255 then waiting q else waiting q ++ (scancode ∷ [])))
unfolding keyb_isr
waiting-keyb_isr scancode q v = elim (Bool-cases (q.keyhead - q.keytail == 255)) [
  | inl full ↦
      let stuck : (keyq_ptr (q.keyhead + 1) == keyq_ptr q.keytail) ≡ true =
        ground (arith, v.order, v.room) in
      rw (stuck, full) (v, refl)
  | inr some_room ↦
      let free : (keyq_ptr (q.keyhead + 1) == keyq_ptr q.keytail) ≡ false =
        ground (arith, v.order, v.room) in
      let n = q.keyhead - q.keytail in
      let codes = set q.keyq (keyq_ptr q.keyhead) scancode in
      let more : q.keyhead + 1 - q.keytail ≡ suc n = omega (arith, v.order) in
      let here : q.keytail + n ≡ q.keyhead = omega (arith, v.order) in
      rw (free, some_room)
        (
          record {
            size = length-set q.keyq _ _ ∙ v.size;
            order = omega (arith, v.order);
            room = ground (arith, v.order, v.room);
          },
          ap (window codes q.keytail) more
              ∙ window-snoc codes q.keytail n
              ∙ ap₂ (λ w c. w ++ (c ∷ []))
                  (window-set q.keyq q.keytail n q.keyhead scancode (omega arith)
                    (ground (arith, v.room)))
                  (ap (λ k. get_or codes (keyq_ptr k) 0) here
                    ∙ get_or-set_self q.keyq (keyq_ptr q.keyhead) scancode 0
                        (omega (arith, v.size))),
        )
]

-- What a queue gives: its oldest code and the others, or 0 and nothing.
abbrev pub Taken : List ℕ → ℕ → List ℕ → Type 0
Taken [] code rest = (code ≡ 0) × (rest ≡ [])
Taken (c ∷ cs) code rest = (code ≡ c) × (rest ≡ cs)

-- `keyq_get` takes the oldest waiting code, or returns 0 where none waits; the queue stays valid,
-- and `keyq_empty` tells the two cases apart.
pub waiting-keyq_get :
    (q : KeyQueue)
    → IsValid q
    → let (code, q') = keyq_get q in
      Taken (waiting q) code (waiting q') × IsValid q' × (keyq_empty q ≡ (length (waiting q) == 0))
unfolding keyq_get keyq_empty
waiting-keyq_get q v = by_count (q.keyhead - q.keytail) refl
  where
    by_count :
        (n : ℕ)
        → q.keyhead - q.keytail ≡ n
        → let (code, q') = keyq_get q in
          Taken (waiting q) code (waiting q')
          × IsValid q'
          × (keyq_empty q ≡ (length (waiting q) == 0))
    by_count zero e =
        let none_left : (keyq_ptr q.keyhead == keyq_ptr q.keytail) ≡ true =
          ground (arith, v.order) in
        let equal : (q.keyhead == q.keytail) ≡ true = ground (arith, v.order) in
        rw (e, none_left, keyq_get) ((refl, ap (window q.keyq q.keytail) e), v, equal)
    by_count (suc n) e =
        let some_left : (keyq_ptr q.keyhead == keyq_ptr q.keytail) ≡ false =
          ground (arith, v.order, v.room) in
        let differ : (q.keyhead == q.keytail) ≡ false = ground (arith, v.order) in
        let fewer : q.keyhead - (q.keytail + 1) ≡ n = omega arith in
        rw (e, some_left, keyq_get)
          (
            (refl, ap (window q.keyq (q.keytail + 1)) fewer),
            record { size = v.size; order = omega arith; room = omega (arith, v.room) },
            differ ∙ sym (ne→== (suc (length (window q.keyq (q.keytail + 1) n))) 0 (omega arith)),
          )
