-- ===== src/Probe/Db.antt =====
-- The table `shared_nodes` (neo-uptime-node/src/db/entity/shared_nodes.rs) and the operations on
-- it (neo-uptime-node/src/db/operations.rs). The database itself (SeaORM over SQLite) is a
-- parameter: `Orm` says what the operations rely on.
pub mod Laws
use neo_easy_tier_deamon.Prelude.{
  ℕ, ◌≡◌, Bool, true, false, Option, none, some, List, [], ◌∷◌, ◌++◌, if◌then◌else◌,
}
use neo_easy_tier_deamon.Prelude.Int.{ℤ, pos, int_eq}
use neo_easy_tier_deamon.Prelude.Text.{Text}

pub record NodeRow : Type 0 where
  pub id : ℤ
  pub name : Text
  pub host : Text
  pub port : ℤ
  pub protocol : Text
  pub version : Text
  pub allow_relay : Bool
  pub network_name : Text
  pub network_secret : Text
  pub description : Text
  pub max_connections : ℤ
  pub current_connections : ℤ
  pub is_active : Bool
  pub is_approved : Bool
  pub qq_number : Text
  pub wechat : Text
  pub mail : Text
  pub created_at : ℕ
  pub updated_at : ℕ

-- The row with an id.
abbrev pub find_node : ℤ → List NodeRow → Option NodeRow
find_node i [] = none
find_node i (r ∷ rows) = let rest = find_node i rows in if int_eq r.id i then some r else rest

-- The rows after a change of the row with an id.
abbrev pub modify_node : ℤ → (NodeRow → NodeRow) → List NodeRow → List NodeRow
modify_node i f [] = []
modify_node i f (r ∷ rows) =
    let rest = modify_node i f rows in if int_eq r.id i then f r ∷ rest else r ∷ rest

-- A call either gives a value or fails (`DbErr`), and may change the database.
abbrev pub M : Type 0 → Type 0 → Type 0
M S A = S → Option A × S

-- What the program uses of the database. A model to insert is a row for each id that it may get.
-- The columns that an update sets are a function on rows. A call that fails changes no row.
pub record Orm (S : Type 0) : Type 1 where
  pub rows : S → List NodeRow
  pub find_all : M S (List NodeRow)
  pub find_by_id : ℤ → M S (Option NodeRow)
  pub insert : (ℤ → NodeRow) → M S ℤ
  pub update : ℤ → (NodeRow → NodeRow) → M S NodeRow
  pub find_all_keeps : (s : S) → rows (find_all s).1 ≡ rows s
  pub find_all_gives : (s : S) (l : List NodeRow) → (find_all s).0 ≡ some l → l ≡ rows s
  pub find_by_id_keeps : (i : ℤ) (s : S) → rows (find_by_id i s).1 ≡ rows s
  pub find_by_id_gives :
      (i : ℤ) (s : S) (o : Option NodeRow) → (find_by_id i s).0 ≡ some o → o ≡ find_node i (rows s)
  pub insert_fails :
      (m : ℤ → NodeRow) (s : S) → (insert m s).0 ≡ none → rows (insert m s).1 ≡ rows s
  pub insert_appends :
      (m : ℤ → NodeRow) (s : S) (i : ℤ)
      → (insert m s).0 ≡ some i
      → (rows (insert m s).1 ≡ rows s ++ (m i ∷ [])) × (find_node i (rows s) ≡ none)
  pub update_fails :
      (i : ℤ) (f : NodeRow → NodeRow) (s : S)
      → (update i f s).0 ≡ none
      → rows (update i f s).1 ≡ rows s
  pub update_modifies :
      (i : ℤ) (f : NodeRow → NodeRow) (s : S) (r : NodeRow)
      → (update i f s).0 ≡ some r
      → (rows (update i f s).1 ≡ modify_node i f (rows s))
        × (find_node i (rows (update i f s).1) ≡ some r)

-- `CreateNodeRequest` of models.rs. The probe does not run its validations.
pub record CreateNodeRequest : Type 0 where
  pub name : Text
  pub host : Text
  pub port : ℤ
  pub protocol : Text
  pub description : Option Text
  pub max_connections : ℤ
  pub allow_relay : Bool
  pub network_name : Text
  pub network_secret : Option Text
  pub qq_number : Option Text
  pub wechat : Option Text
  pub mail : Option Text

abbrev pub or_default : Option Text → Text
or_default none = []
or_default (some t) = t

-- The row that the model makes, at the id that the database gives it.
unfoldable pub create_node_model : CreateNodeRequest → ℕ → ℤ → NodeRow
create_node_model req now i = record {
  id = i;
  name = req.name;
  host = req.host;
  port = req.port;
  protocol = req.protocol;
  version = [];
  allow_relay = req.allow_relay;
  network_name = req.network_name;
  network_secret = or_default req.network_secret;
  description = or_default req.description;
  max_connections = req.max_connections;
  current_connections = pos 0;
  is_active = false;
  is_approved = false;
  qq_number = or_default req.qq_number;
  wechat = or_default req.wechat;
  mail = or_default req.mail;
  created_at = now;
  updated_at = now;
}

-- How a call goes on from what the call before it gave.
abbrev pub bind : {S A B : Type 0} → Option A × S → (A → M S B) → Option B × S
bind (none, s) f = (none, s)
bind (some a, s) f = f a s

infixl 5 ◌>>=◌
abbrev pub ◌>>=◌ : {S A B : Type 0} → M S A → (A → M S B) → M S B
◌>>=◌ m f s = bind (m s) f

-- `.ok_or(DbErr::RecordNotFound(…))`
abbrev pub ok_or_not_found : {S A : Type 0} → Option A → M S A
ok_or_not_found o s = (o, s)

-- The columns that `update_node_status` sets.
abbrev pub set_status : Bool → Option ℤ → ℕ → NodeRow → NodeRow
set_status active none now r = record r { is_active = active; updated_at = now }
set_status active (some n) now r = record r {
  is_active = active;
  current_connections = n;
  updated_at = now;
}

abbrev pub set_version : Text → ℕ → NodeRow → NodeRow
set_version version now r = record r { version = version; updated_at = now }

module _ {S : Type 0} (db : Orm S) where
  -- `now` is read twice by the source, for the two time columns.
  unfoldable pub create_node : CreateNodeRequest → ℕ → M S NodeRow
  create_node req now = do
    i ← db.insert (create_node_model req now)
    node ← db.find_by_id i
    ok_or_not_found node

  unfoldable pub get_all_nodes : M S (List NodeRow)
  get_all_nodes = db.find_all

  unfoldable pub get_node_by_id : ℤ → M S (Option NodeRow)
  get_node_by_id i = db.find_by_id i

  unfoldable pub update_node_status : ℤ → Bool → Option ℤ → ℕ → M S NodeRow
  update_node_status i is_active current_connections now = do
    found ← db.find_by_id i
    node ← ok_or_not_found found
    db.update node.id (set_status is_active current_connections now)

  unfoldable pub update_node_version : ℤ → Text → ℕ → M S NodeRow
  update_node_version i version now = do
    found ← db.find_by_id i
    node ← ok_or_not_found found
    db.update node.id (set_version version now)
