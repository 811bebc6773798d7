-- ===== src/Libk/Tree/Rounds.antt =====
-- The rounds of `node_simple_balance` of libk/tree.c.
use twcos.Common.{
  ℕ, zero, suc, ◌*◌, ◌≤◌, ◌≡◌, refl, sym, ◌∙◌, none, some, List, [], ◌∷◌, arith, length,
}
use twcos.Libk.Tree.{Entry, Tree, leaf, node, Crumb, left_of, right_of}
use twcos.Libk.Tree.Balance.{Turn, turn_left, turn_right, simple_balance_loop}

-- The round after a turn moves up to the parent.
abbrev Settles : Turn → Type 0
Settles none = Unit
Settles (some (c, l, x, p, n, r)) =
    (l' : Tree) × (x' : Entry) × (p' : ℕ) × (n' : ℕ) × (r' : Tree) × ((f : ℕ) (path : List Crumb)
      → simple_balance_loop (suc f) l x p n r (c ∷ path)
        ≡ simple_balance_loop f l' x' p' n' r' path)

turn_left-Settles :
    (l : Tree) (x : Entry) (p : ℕ) (r : Tree) (e : Entry) (ep : ℕ) (s : Tree)
    → Settles (turn_left l x p r e ep s)
unfolding turn_left turn_right simple_balance_loop
turn_left-Settles leaf x p leaf e ep s = tt
turn_left-Settles leaf x p (node a b bp bn c) e ep leaf = (_, _, _, _, _, λ f path. refl)
turn_left-Settles leaf x p (node a b bp bn c) e ep (node _ _ _ _ _) = tt
turn_left-Settles (node a b bp bn c) x p leaf e ep leaf = (_, _, _, _, _, λ f path. refl)
turn_left-Settles (node a b bp bn c) x p leaf e ep (node _ _ _ _ _) = tt
turn_left-Settles (node a b bp bn c) x p (node _ _ _ _ _) e ep s = tt

turn_right-Settles :
    (s : Tree) (e : Entry) (ep : ℕ) (l : Tree) (x : Entry) (p : ℕ) (r : Tree)
    → Settles (turn_right s e ep l x p r)
unfolding turn_left turn_right simple_balance_loop
turn_right-Settles (node _ _ _ _ _) e ep l x p r = tt
turn_right-Settles leaf e ep leaf x p leaf = tt
turn_right-Settles leaf e ep leaf x p (node a b bp bn c) = (_, _, _, _, _, λ f path. refl)
turn_right-Settles leaf e ep (node leaf b bp bn c) x p leaf = (_, _, _, _, _, λ f path. refl)
turn_right-Settles leaf e ep (node (node _ _ _ _ _) b bp bn c) x p leaf =
    (_, _, _, _, _, λ f path. refl)
turn_right-Settles leaf e ep (node a b bp bn c) x p (node _ _ _ _ _) = tt

-- What two numbers of rounds do alike at a path.
abbrev Alike : ℕ → ℕ → List Crumb → Type 0
Alike f g path =
    (l : Tree) (x : Entry) (p n : ℕ) (r : Tree)
    → simple_balance_loop f l x p n r path ≡ simple_balance_loop g l x p n r path

after_turn :
    (t : Turn) (f g : ℕ) (path : List Crumb) (l : Tree) (x : Entry) (p n : ℕ) (r : Tree)
    → Settles t
    → Alike (suc f) (suc g) path
    → Alike f g path
    → (elim t [
      | none ↦ simple_balance_loop (suc f) l x p n r path
      | some (c, l', x', p', n', r') ↦ simple_balance_loop (suc f) l' x' p' n' r' (c ∷ path)
    ])
      ≡ (elim t [
        | none ↦ simple_balance_loop (suc g) l x p n r path
        | some (c, l', x', p', n', r') ↦ simple_balance_loop (suc g) l' x' p' n' r' (c ∷ path)
      ])
after_turn none f g path l x p n r s more fewer = more l x p n r
after_turn (some (c, l', x', p', n', r')) f g path l x p n r (l2, x2, p2, n2, r2, e) more fewer =
    e f path ∙ fewer l2 x2 p2 n2 r2 ∙ sym (e g path)

-- With two rounds or more for each ancestor, the number of rounds makes no difference: the loop of
-- `node_simple_balance` ends by then.
pub simple_balance_loop-rounds :
    (f g : ℕ) (l : Tree) (x : Entry) (p n : ℕ) (r : Tree) (path : List Crumb)
    → 2 * length path ≤ f
    → 2 * length path ≤ g
    → simple_balance_loop f l x p n r path ≡ simple_balance_loop g l x p n r path
unfolding simple_balance_loop
simple_balance_loop-rounds zero zero l x p n r [] h k = refl
simple_balance_loop-rounds zero (suc g) l x p n r [] h k = refl
simple_balance_loop-rounds (suc f) zero l x p n r [] h k = refl
simple_balance_loop-rounds (suc f) (suc g) l x p n r [] h k = refl
simple_balance_loop-rounds zero g l x p n r (c ∷ path) h k = absurd (omega arith)
simple_balance_loop-rounds (suc zero) g l x p n r (c ∷ path) h k = absurd (omega arith)
simple_balance_loop-rounds (suc (suc f)) zero l x p n r (c ∷ path) h k = absurd (omega arith)
simple_balance_loop-rounds (suc (suc f)) (suc zero) l x p n r (c ∷ path) h k = absurd (omega arith)
simple_balance_loop-rounds (suc (suc f)) (suc (suc g)) l x p n r (left_of e ep en s ∷ path) h k =
    after_turn (turn_left l x p r e ep s) f g path (node l x p n r) e ep en s
      (turn_left-Settles l x p r e ep s)
      (λ l x p n r.
        simple_balance_loop-rounds (suc f) (suc g) l x p n r path (omega arith) (omega arith))
      (λ l x p n r. simple_balance_loop-rounds f g l x p n r path (omega arith) (omega arith))
simple_balance_loop-rounds (suc (suc f)) (suc (suc g)) l x p n r (right_of s e ep en ∷ path) h k =
    after_turn (turn_right s e ep l x p r) f g path s e ep en (node l x p n r)
      (turn_right-Settles s e ep l x p r)
      (λ l x p n r.
        simple_balance_loop-rounds (suc f) (suc g) l x p n r path (omega arith) (omega arith))
      (λ l x p n r. simple_balance_loop-rounds f g l x p n r path (omega arith) (omega arith))
