-- ===== src/Tests/Nodes.antt =====
-- Examples of the table of nodes and of a sync. The database is a list of rows.
mod Checks
use neo_easy_tier_deamon.Prelude.{
  ◌≡◌, ◌⊎◌, refl, true, false, Option, none, some, List, [], ◌∷◌, ◌++◌, arith, length,
}
use neo_easy_tier_deamon.Prelude.Int.{ℤ, pos}
use neo_easy_tier_deamon.Prelude.Text.{codes}
use neo_easy_tier_deamon.Probe.Db.{
  NodeRow, Orm, CreateNodeRequest, find_node, modify_node, create_node, update_node_status,
  update_node_version,
}
use neo_easy_tier_deamon.Probe.Db.Laws.{
  Updated, Created, update_node_status_lem, update_node_version_lem, create_node_lem,
}
use neo_easy_tier_deamon.Probe.Backend.{BackendPeer}
use neo_easy_tier_deamon.Probe.Report.{describe}
use neo_easy_tier_deamon.Probe.Sync.{sync_peers_to_db, sync_new, sync_peer, node_map}
use neo_easy_tier_deamon.Probe.Sync.Keeps.{Keeps, sync_peers_to_db-Keeps}
use neo_easy_tier_deamon.Probe.Sync.Resync.{IsAdded, sync_again}

some-back : {A : Type 0} {a b : A} → some a ≡ some b → b ≡ a
some-back e = cc

-- A row gets the number of the rows as its id, if that is free.
insert_at : (ℤ → NodeRow) → List NodeRow → ℤ → Option NodeRow → Option ℤ × List NodeRow
insert_at m s k none = (some k, s ++ (m k ∷ []))
insert_at m s k (some _) = (none, s)

insert_at-fails :
    (m : ℤ → NodeRow) (s : List NodeRow) (k : ℤ) (o : Option NodeRow)
    → (insert_at m s k o).0 ≡ none
    → (insert_at m s k o).1 ≡ s
unfolding insert_at
insert_at-fails m s k none e = cc
insert_at-fails m s k (some _) e = refl

insert_at-appends :
    (m : ℤ → NodeRow) (s : List NodeRow) (k i : ℤ) (o : Option NodeRow)
    → find_node k s ≡ o
    → (insert_at m s k o).0 ≡ some i
    → ((insert_at m s k o).1 ≡ s ++ (m i ∷ [])) × (find_node i s ≡ none)
unfolding insert_at
insert_at-appends m s k i none e h = let q : k ≡ i = cc in (rw q refl, rw (← q) e)
insert_at-appends m s k i (some _) e h = absurd cc

update_at : List NodeRow → List NodeRow → Option NodeRow → Option NodeRow × List NodeRow
update_at s s' none = (none, s)
update_at s s' (some r) = (some r, s')

update_at-fails :
    (s s' : List NodeRow) (o : Option NodeRow)
    → (update_at s s' o).0 ≡ none
    → (update_at s s' o).1 ≡ s
unfolding update_at
update_at-fails s s' none e = refl
update_at-fails s s' (some r) e = cc

update_at-modifies :
    (s s' : List NodeRow) (i : ℤ) (o : Option NodeRow) (r : NodeRow)
    → find_node i s' ≡ o
    → (update_at s s' o).0 ≡ some r
    → ((update_at s s' o).1 ≡ s') × (find_node i (update_at s s' o).1 ≡ some r)
unfolding update_at
update_at-modifies s s' i none r e h = absurd cc
update_at-modifies s s' i (some x) r e h = (refl, cc)

table : Orm (List NodeRow)
unfolding insert_at update_at
table = record {
  rows = λ s. s;
  find_all = λ s. (some s, s);
  find_by_id = λ i s. (some (find_node i s), s);
  insert = λ m s. insert_at m s (pos (length s)) (find_node (pos (length s)) s);
  update = λ i f s. update_at s (modify_node i f s) (find_node i (modify_node i f s));
  find_all_keeps = λ s. refl;
  find_all_gives = λ s l e. some-back e;
  find_by_id_keeps = λ i s. refl;
  find_by_id_gives = λ i s o e. some-back e;
  insert_fails = λ m s e. insert_at-fails m s (pos (length s)) (find_node (pos (length s)) s) e;
  insert_appends =
      λ m s i e. insert_at-appends m s (pos (length s)) i (find_node (pos (length s)) s) refl e;
  update_fails =
      λ i f s e. update_at-fails s (modify_node i f s) (find_node i (modify_node i f s)) e;
  update_modifies = λ i f s r e.
      update_at-modifies s (modify_node i f s) i (find_node i (modify_node i f s)) r refl e;
}

abbrev reload : ℤ → List NodeRow → List NodeRow
reload i s = s

abbrev peer : BackendPeer
peer = record {
  id = pos 42;
  name = codes "n";
  description = none;
  sponsor = none;
  location = none;
  allow_relay = none;
  public_ip = some (codes "h:1");
  protocol = none;
  network_name = none;
  network_secret = none;
  status = codes "Online";
  latency_ms = none;
  peer = none;
  last_heartbeat = none;
}

abbrev node : NodeRow
node = record {
  id = pos 0;
  name = codes "n";
  host = codes "h";
  port = pos 1;
  protocol = codes "tcp";
  version = [];
  allow_relay = true;
  network_name = codes "default";
  network_secret = [];
  description = describe (pos 42);
  max_connections = pos 100;
  current_connections = pos 0;
  is_active = false;
  is_approved = true;
  qq_number = [];
  wechat = [];
  mail = [];
  created_at = 5;
  updated_at = 5;
}

abbrev request : CreateNodeRequest
request = record {
  name = codes "n";
  host = codes "h";
  port = pos 1;
  protocol = codes "tcp";
  description = none;
  max_connections = pos 100;
  allow_relay = true;
  network_name = codes "default";
  network_secret = none;
  qq_number = none;
  wechat = none;
  mail = none;
}

sync_peers_to_db-Keeps_example :
    Keeps table
      (node ∷ [])
      (sync_peers_to_db table reload (peer ∷ peer ∷ []) 9 ((node ∷ []), [])).1.0
sync_peers_to_db-Keeps_example =
    sync_peers_to_db-Keeps table reload (λ i s j r e. (r, e)) (peer ∷ peer ∷ []) 9 (node ∷ []) []

node-IsAdded : IsAdded table peer [] (node ∷ []) (pos 0)
unfolding table
node-IsAdded = record {
  row = node;
  was_free = refl;
  found = refl;
  is_approved = refl;
  description = refl;
}

sync_again_example :
    find_node (pos 1) (sync_peer table reload (node_map (node ∷ []) []) peer 9 ((node ∷ []), [])).0
    ≡ none
unfolding table
sync_again_example =
    sync_again table reload (λ i j s h. h) peer peer [] (node ∷ []) (pos 0) (pos 1) 9 []
      (omega arith) refl node-IsAdded refl
