-- ===== src/Resolver/Live/Streaks.antt =====
-- How often a node fails to answer before the monitor unbinds it.
use nixsrv.Prelude.{
  ℕ, suc, ℤ, ◌≡◌, ◌≢◌, refl, sym, ap, ◌∙◌, inl, inr, Bool, true, false, not, ◌&&◌, Option, none,
  some, String, ◌==◌, List, [], ◌∷◌, if◌then◌else◌, Bool-cases, str_ne, arith, eq_iff, eq_refl,
  if_both,
}
use nixsrv.Prelude.Pick.{pick}
use nixsrv.Json.{Json}
use nixsrv.Table
use nixsrv.Table.{Table}
use nixsrv.Table.Laws.{find-erase, get_or-put, contains-erase}
use nixsrv.Resolver.{Resolver, unbind_node}
use nixsrv.Resolver.Monitor.{too_many, node_round, address_round}
use nixsrv.Resolver.Live.{
  Live, Phase, idle, terminated, nodes, services, Ping, answered, thrown, Event, requested,
  proceeds, pinged, checks, inserts, proceed, ping, insert_held, check_held, handle, alive, react,
  run,
}
use nixsrv.Resolver.Live.Tables.{IsNodeMap, run-IsNodeMap, react-over, run-terminated}

-- The monitor as it starts.
abbrev pub starting : Resolver → Live
starting s = record {
  resolver = s;
  fails = record { nodes = []; services = [] };
  phase = idle;
  held = [];
}

-- The pings of a node since it last answered, after one more ping.
abbrev pub counted : String → Ping → Phase → ℕ → ℕ
counted node (answered replied) (nodes ((other, address) ∷ rest)) k =
    if other == node then (if replied then 0 else suc k) else k
counted node x phase k = k

proceed-fails : (p : Phase) (m : Live) → (proceed p m).fails ≡ m.fails
unfolding proceed
proceed-fails idle m = refl
proceed-fails terminated m = refl
proceed-fails (nodes []) m = refl
proceed-fails (nodes (it ∷ rest)) m = refl
proceed-fails (services []) m = refl
proceed-fails (services ((service, []) ∷ rest)) m = refl
proceed-fails (services ((service, it ∷ names) ∷ rest)) m = refl

insert_held-fails :
    (o : Option ((String × String) × List (String × String))) (m : Live)
    → (insert_held o m).fails ≡ m.fails
unfolding insert_held
insert_held-fails none m = refl
insert_held-fails (some ((service, nodename), rest)) m = refl

ping-fails :
    (max : ℤ) (node : String) (x : Ping) (p : Phase) (m : Live)
    → Table.get_or node 0 (ping max x p m).fails.nodes
      ≡ counted node x p (Table.get_or node 0 m.fails.nodes)
unfolding ping node_round address_round
ping-fails max node thrown idle m = refl
ping-fails max node thrown terminated m = refl
ping-fails max node thrown (nodes []) m = refl
ping-fails max node thrown (nodes (it ∷ rest)) m = refl
ping-fails max node thrown (services []) m = refl
ping-fails max node thrown (services ((service, []) ∷ rest)) m = refl
ping-fails max node thrown (services ((service, it ∷ names) ∷ rest)) m = refl
ping-fails max node (answered b) idle m = refl
ping-fails max node (answered b) terminated m = refl
ping-fails max node (answered b) (nodes []) m = refl
ping-fails max node (answered b) (nodes ((other, address) ∷ rest)) m = ground (
  arith,
  get_or-put other node 0 (if b then 0 else suc (Table.get_or other 0 m.fails.nodes)) m.fails.nodes,
  eq_iff other node,
)
ping-fails max node (answered b) (services []) m = refl
ping-fails max node (answered b) (services ((service, []) ∷ rest)) m = refl
ping-fails max node (answered b) (services ((service, address ∷ names) ∷ rest)) m = refl

-- The end of a ping of the node, after `k` that failed.
module _ (max : ℤ) (node address : String) (rest : List (String × String)) (m : Live) (p : Phase)
    (at : p ≡ nodes ((node, address) ∷ rest)) where
  pub ping_drop :
      (replied : Bool) (k : ℕ)
      → IsNodeMap m.resolver
      → Table.get_or node 0 m.fails.nodes ≡ k
      → (Table.contains node (ping max (answered replied) p m).resolver.nodes ≡ (
          if not replied && too_many max (suc k)
          then false
          else Table.contains node m.resolver.nodes))
        × ((j : String)
            → node ≢ j
            → Table.find j (ping max (answered replied) p m).resolver.nodes
              ≡ Table.find j m.resolver.nodes)
  unfolding ping unbind_node node_round
  ping_drop replied k u seen =
      rw (at, sym seen)
        (elim (Bool-cases (not replied && too_many max (suc (Table.get_or node 0 m.fails.nodes)))) [
          | inl e ↦ rw e (
            contains-erase node node m.resolver.nodes u ∙ rw eq_refl refl,
            λ j other. find-erase node j m.resolver.nodes u ∙ rw (str_ne node j other) refl,
          )
          | inr e ↦ rw e (refl, λ j other. refl)
        ])

  pub ping-thrown : ping max thrown p m ≡ record m { phase = terminated }
  unfolding ping
  ping-thrown = rw at refl

  pub alive_at : alive p ≡ true
  alive_at = rw at refl

-- What an event that comes at a state does to the count.
abbrev pub counts : {V : Type 0} → String → Event V → Live → ℕ → ℕ
counts node (pinged x) m k = counted node x m.phase k
counts node e m k = k

counted-over :
    (node : String) (x : Ping) (p : Phase) (k : ℕ) → alive p ≡ false → counted node x p k ≡ k
counted-over node thrown p k over = refl
counted-over node (answered b) idle k over = refl
counted-over node (answered b) terminated k over = refl
counted-over node (answered b) (nodes []) k over = refl
counted-over node (answered b) (nodes ((other, address) ∷ rest)) k over = absurd cc
counted-over node (answered b) (services l) k over = refl

counts-over :
    {V : Type 0} (node : String) (e : Event V) (m : Live) (k : ℕ)
    → alive m.phase ≡ false
    → counts node e m k ≡ k
counts-over node (requested c root) m k over = refl
counts-over node proceeds m k over = refl
counts-over node (pinged x) m k over = counted-over node x m.phase k over
counts-over node (checks root) m k over = refl
counts-over node (inserts i) m k over = refl

module _ {V : Type 0} ⦃J : Json V⦄ (max : ℤ) (node : String) where
  -- The pings of the node that were not answered since the last one that was.
  unfoldable pub streak : List (Event V) → Live → ℕ → ℕ
  streak [] m k = k
  streak (e ∷ rest) m k = streak rest (react max e m) (counts node e m k)

  handle-fails :
      (e : Event V) (m : Live)
      → Table.get_or node 0 (handle max e m).fails.nodes
        ≡ counts node e m (Table.get_or node 0 m.fails.nodes)
  unfolding handle check_held
  handle-fails (requested c root) m = refl
  handle-fails proceeds m = ap (λ f. Table.get_or node 0 f.nodes) (proceed-fails m.phase m)
  handle-fails (pinged x) m = ping-fails max node x m.phase m
  handle-fails (checks root) m =
      if_both (λ (n : Live). Table.get_or node 0 n.fails.nodes ≡ Table.get_or node 0 m.fails.nodes)
        _ refl refl
  handle-fails (inserts i) m =
      ap (λ f. Table.get_or node 0 f.nodes) (insert_held-fails (pick i m.held) m)

  react-fails :
      (e : Event V) (m : Live)
      → Table.get_or node 0 (react max e m).fails.nodes
        ≡ counts node e m (Table.get_or node 0 m.fails.nodes)
  react-fails e m = elim (Bool-cases (alive m.phase)) [
    | inl on ↦ unfold react in rw on (handle-fails e m)
    | inr over ↦ rw (react-over max e m over) (sym (counts-over node e m _ over))
  ]

  pub run-fails :
      (es : List (Event V)) (m : Live)
      → Table.get_or node 0 (run max es m).fails.nodes
        ≡ streak es m (Table.get_or node 0 m.fails.nodes)
  unfolding run streak
  run-fails [] m = refl
  run-fails (e ∷ rest) m =
      run-fails rest (react max e m) ∙ ap (streak rest (react max e m)) (react-fails e m)

  -- In whatever order requests come among the rounds of a monitor that starts at a state with one entry
  -- to a node, where it is about to ping a node. If the ping can be sent, then at its end the node is
  -- known exactly if it was before and the pings of it that were not answered, since the last one
  -- that was, are fewer than the failures that it may have, or the ping is answered, and no other
  -- node's entry changes. If it cannot be sent, the program is terminated, and nothing follows.
  pub ping-drops :
      (es later : List (Event V)) (s : Resolver) (replied : Bool) (address : String)
      → (rest : List (String × String)) → IsNodeMap s
      → (run max es (starting s)).phase ≡ nodes ((node, address) ∷ rest)
      → (Table.contains node
            (react {V = V} max (pinged (answered replied)) (run max es (starting s))).resolver.nodes
          ≡ (if not replied && too_many max (suc (streak es (starting s) 0))
              then false
              else Table.contains node (run max es (starting s)).resolver.nodes))
        × ((j : String)
            → node ≢ j
            → Table.find j
                (react {V = V} max
                  (pinged (answered replied))
                  (run max es (starting s))).resolver.nodes
              ≡ Table.find j (run max es (starting s)).resolver.nodes)
        × (run max (pinged thrown ∷ later) (run max es (starting s))
            ≡ record (run max es (starting s)) { phase = terminated })
  ping-drops es later s replied address rest u at =
      let m = run max es (starting s) in
      let on = alive_at max node address rest m m.phase at in
      let (gone, kept) =
        ping_drop max node address rest m m.phase at replied (streak es (starting s) 0)
          (run-IsNodeMap max es (starting s) u)
          (run-fails es (starting s) ∙ (unfold Table.get_or in refl)) in
      let over : react {V = V} max (pinged thrown) m ≡ record m { phase = terminated } =
        unfold react handle in rw on (ping-thrown max node address rest m m.phase at) in
      (
        unfold react handle in rw on gone,
        unfold react handle in rw on kept,
        unfold run in rw over (run-terminated max later (record m { phase = terminated }) refl),
      )
