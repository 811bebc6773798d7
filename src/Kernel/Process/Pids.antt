-- ===== src/Kernel/Process/Pids.antt =====
-- The identifiers that kernel/process.c gives out.
use twcos.Common.{
  ℕ, zero, suc, ◌+◌, ◌%◌, ◌^◌, ◌<◌, ◌≤◌, ◌≡◌, ◌≢◌, refl, sym, ◌∙◌, subst, Bool, true, false, some,
  List, [], ◌∷◌, arith, ◌==◌, if◌then◌else◌, length, Bool-cases, inl, inr, ==→eq,
}
use twcos.Libk.Map.{MapOps, map_get, map_put}
use twcos.Libk.Map.Contract.{IsMap}
use twcos.Kernel.Process.{Container, free_pid, process_nextpid}

unfoldable pub member : ℕ → List ℕ → Bool
member k [] = false
member k (j ∷ l) = if k == j then true else member k l

without : ℕ → List ℕ → List ℕ
without k [] = []
without k (j ∷ l) = if k == j then without k l else j ∷ without k l

length-without : (k : ℕ) (l : List ℕ) → length (without k l) ≤ length l
unfolding without
length-without k [] = omega arith
length-without k (j ∷ l) = ground (arith, length-without k l)

without_shorter : (k : ℕ) (l : List ℕ) → member k l ≡ true → length (without k l) < length l
unfolding without member
without_shorter k [] h = cc
without_shorter k (j ∷ l) h = ground (arith, without_shorter k l, length-without k l)

member-without : (j k : ℕ) (l : List ℕ) → j ≢ k → member j (without k l) ≡ member j l
unfolding without member
member-without j k [] ne = refl
member-without j k (i ∷ l) ne = ground (arith, member-without j k l ne, ne)

module _ {Pids : Type 0} (pid_ops : MapOps Pids) (Valid : Pids → Type 0)
    (law : IsMap pid_ops ◌==◌ Valid)
    (still : (m : Pids) (k : ℕ) → Valid m → (map_get pid_ops m k).1 ≡ m) where
  -- The process that has an identifier, 0 for none.
  unfoldable pub process_of : Container Pids → ℕ → ℕ
  process_of c pid = (map_get pid_ops c.pids pid).0

  -- `pid` is free, and the search goes on behind it next time.
  pub record Free (c : Container Pids) (pid : ℕ) (c' : Container Pids) : Type 0 where
    pub unused : process_of c pid ≡ 0
    pub small : pid < 2 ^ 32
    pub next : c'.nextpid ≡ (pid + 1) % 2 ^ 32
    pub pids_kept : c'.pids ≡ c.pids

  -- The identifiers in use are in a list shorter than the fuel.
  free_pid-Free :
      (fuel : ℕ) (c : Container Pids) (used : List ℕ)
      → Valid c.pids
      → c.nextpid < 2 ^ 32
      → length used < fuel
      → fuel ≤ 2 ^ 32
      → ((i : ℕ)
          → i < fuel
          → process_of c ((c.nextpid + i) % 2 ^ 32) ≢ 0
          → member ((c.nextpid + i) % 2 ^ 32) used ≡ true)
      → (pid : ℕ) × (c' : Container Pids) × (free_pid pid_ops fuel c ≡ some (pid, c'))
        × Free c pid c'
  unfolding free_pid process_of
  free_pid-Free zero c used v small short long covers = absurd (omega arith)
  free_pid-Free (suc fuel) c used v small short long covers =
      elim (Bool-cases (process_of c c.nextpid == 0)) [
        | inl free ↦ (
          c.nextpid,
          record {
            nextpid = (c.nextpid + 1) % 2 ^ 32;
            pids = (map_get pid_ops c.pids c.nextpid).1;
          },
          rw (free_pid, free),
          record {
            unused = ==→eq _ _ free;
            small = small;
            next = refl;
            pids_kept = still c.pids c.nextpid v;
          },
        )
        | inr taken ↦
            let c1 : Container Pids = record {
              nextpid = (c.nextpid + 1) % 2 ^ 32;
              pids = c.pids;
            } in
            let same : (map_get pid_ops c.pids c.nextpid).1 ≡ c.pids = still c.pids c.nextpid v in
            let own : member c.nextpid used ≡ true =
              subst (λ k. member k used ≡ true) {x = (c.nextpid + 0) % 2 ^ 32} {y = c.nextpid}
                (omega arith)
                (covers 0 (omega arith) (
                  subst (λ k. process_of c k ≢ 0) {x = c.nextpid} {y = (c.nextpid + 0) % 2 ^ 32}
                    (omega arith) (λ e. ground (arith, taken, e)))) in
            let r =
              free_pid-Free fuel c1 (without c.nextpid used) v (omega arith)
                (omega (arith, without_shorter c.nextpid used own)) (omega arith)
                (λ i h n.
                  let k : ℕ = (c1.nextpid + i) % 2 ^ 32 in
                  let e : (c.nextpid + suc i) % 2 ^ 32 ≡ k = omega arith in
                  member-without k c.nextpid used (omega arith)
                  ∙ subst (λ j. member j used ≡ true) e
                      (covers (suc i) (omega arith) (subst (λ j. process_of c j ≢ 0) (sym e) n))) in
            (
              r.0,
              r.1,
              rw (free_pid, taken, same) r.2,
              record {
                unused = r.3.unused;
                small = r.3.small;
                next = r.3.next;
                pids_kept = r.3.pids_kept;
              },
            )
      ]

  -- `process_nextpid` ends, with an identifier that no process of the container had, whenever the
  -- identifiers in use are in a list shorter than 2 ^ 32. It then names the process, and every
  -- other identifier names what it named before.
  pub process_nextpid-Free :
      (process : ℕ) (c : Container Pids) (used : List ℕ)
      → Valid c.pids
      → c.nextpid < 2 ^ 32
      → length used < 2 ^ 32
      → ((pid : ℕ) → process_of c pid ≢ 0 → member pid used ≡ true)
      → (pid : ℕ) × (c' : Container Pids) × (process_nextpid pid_ops (length used + 1) process c
          ≡ some (pid, c'))
        × (process_of c pid ≡ 0)
        × (c'.nextpid ≡ (pid + 1) % 2 ^ 32)
        × ((k : ℕ) → process_of c' k ≡ (if k == pid then process else process_of c k))
  unfolding process_nextpid process_of
  process_nextpid-Free process c used v small short covers =
      let (pid, c1, run, f) =
        free_pid-Free (length used + 1) c used v small (omega arith) (omega arith)
          (λ i h n. covers ((c.nextpid + i) % 2 ^ 32) n) in
      (
        pid,
        record c1 { pids = (map_put pid_ops c1.pids pid process).1 },
        rw (process_nextpid, run),
        f.unused,
        f.next,
        λ k. rw f.pids_kept (law.get-put c.pids pid process k v),
      )
