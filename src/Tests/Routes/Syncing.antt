-- ===== src/Tests/Routes/Syncing.antt =====
-- Examples of the route information that peers exchange.
use mathlib.Core.List.{lookup, Memᴰ}
use mathlib.Core.List.Memᴰ
use native.Mathlib.Omega.{arith}
use neo_easy_tier_deamon.Prelude.{
  ℕ, ◌≡◌, ◌+◌, ◌%◌, ◌^◌, ◌⊎◌, refl, ap, sym, ◌∙◌, List, [], ◌∷◌, Option, some, ℕ_discrete,
}
use neo_easy_tier_deamon.Prelude.Assoc.{put}
use neo_easy_tier_deamon.Route.Messages.{RoutePeerInfo}
use neo_easy_tier_deamon.Route.Newest.{is_newer}
use neo_easy_tier_deamon.Route.Synced.{
  SyncedRouteInfo, Updated, updated, refused, panicked, update_peer_infos, new_peer_info,
  update_loop, after_check, merge_info, store_info, inc_if, inc_version, check_duplicate_peer_id,
  saved_route_id, stamped, raw_agrees, get_peer_info_version_with_default,
}
use neo_easy_tier_deamon.Route.Synced.Infos.{info_of}
use neo_easy_tier_deamon.Route.Synced.Merging.{
  IsMerged, IsRefused, update_peer_infos-updated, update_peer_infos-refused,
}
use neo_easy_tier_deamon.Route.Synced.Order.{timeless, IsSameNews, update_peer_infos-agree}

-- The raw form of an info is its peer id here.
abbrev read : ℕ → Option ℕ
read i = some i

abbrev info : (peer_id version peer_route_id : ℕ) → RoutePeerInfo
unfolding new_peer_info
info peer_id version peer_route_id = record (new_peer_info [] 0) {
  peer_id = peer_id;
  version = version;
  peer_route_id = peer_route_id;
}

abbrev nothing : SyncedRouteInfo ℕ
nothing = record {
  peer_infos = [];
  raw_peer_infos = [];
  conn_map = [];
  foreign_network = [];
  group_trust_map = [];
  group_trust_map_cache = [];
  version = 0;
}

abbrev state_of : Updated ℕ → SyncedRouteInfo ℕ
state_of (updated s) = s
state_of (refused s) = s
state_of panicked = nothing

abbrev news : List RoutePeerInfo
news = info 2 1 5 ∷ info 3 4 6 ∷ info 2 3 5 ∷ []

abbrev after_news : SyncedRouteInfo ℕ
after_news = state_of (update_peer_infos read 1 7 2 99 news (2 ∷ 3 ∷ 2 ∷ []) nothing)

took_news : update_peer_infos read 1 7 2 99 news (2 ∷ 3 ∷ 2 ∷ []) nothing ≡ updated after_news
unfolding update_peer_infos update_loop after_check merge_info store_info inc_if inc_version
    check_duplicate_peer_id saved_route_id stamped raw_agrees get_peer_info_version_with_default
    is_newer put lookup new_peer_info ℕ_discrete
took_news = refl

update_peer_infos_example :
    IsMerged read 1 7 2 99 news nothing after_news
    × ((after_news ≡ nothing) ⊎ (after_news.version ≡ (nothing.version + 1) % 2 ^ 32))
update_peer_infos_example =
    update_peer_infos-updated read 1 7 2 99 news (2 ∷ 3 ∷ 2 ∷ []) nothing after_news took_news

-- The peer 2 starts again with another route id, but an older version.
abbrev old_news : List RoutePeerInfo
old_news = info 4 1 8 ∷ info 2 2 9 ∷ []

abbrev after_refusal : SyncedRouteInfo ℕ
after_refusal = state_of (update_peer_infos read 1 7 2 99 old_news (4 ∷ 2 ∷ []) after_news)

refused_news :
    update_peer_infos read 1 7 2 99 old_news (4 ∷ 2 ∷ []) after_news ≡ refused after_refusal
unfolding update_peer_infos update_loop after_check merge_info store_info inc_if inc_version
    check_duplicate_peer_id saved_route_id stamped raw_agrees get_peer_info_version_with_default
    is_newer put lookup new_peer_info ℕ_discrete
refused_news = refl

update_peer_infos-refused_example : IsRefused read 1 7 2 99 old_news after_news after_refusal
update_peer_infos-refused_example =
    update_peer_infos-refused read 1 7 2 99 old_news (4 ∷ 2 ∷ []) after_news after_refusal
      refused_news

abbrev two : List RoutePeerInfo
two = info 2 1 5 ∷ info 3 4 6 ∷ []

abbrev swapped : List RoutePeerInfo
swapped = info 3 4 6 ∷ info 2 1 5 ∷ []

mem-swap : (a b x : RoutePeerInfo) → Memᴰ x (a ∷ b ∷ []) → Memᴰ x (b ∷ a ∷ [])
mem-swap a b x (Memᴰ.head e) = Memᴰ.tail (Memᴰ.head e)
mem-swap a b x (Memᴰ.tail m) = Memᴰ.head (Memᴰ.eq_of_singleton m)

three_of_two : (x : RoutePeerInfo) → Memᴰ x two → x.peer_id ≡ 3 → x ≡ info 3 4 6
unfolding new_peer_info
three_of_two x (Memᴰ.head e) p = absurd (ground (arith, ap (λ (y : RoutePeerInfo). y.peer_id) e, p))
three_of_two x (Memᴰ.tail m) p = Memᴰ.eq_of_singleton m

two-IsSameNews : IsSameNews 3 two swapped
two-IsSameNews = record {
  same = λ x e. (mem-swap (info 2 1 5) (info 3 4 6) x, mem-swap (info 3 4 6) (info 2 1 5) x);
  one_each = λ x y m n e f v. three_of_two x m e ∙ sym (three_of_two y n f);
}

abbrev after_two : SyncedRouteInfo ℕ
after_two = state_of (update_peer_infos read 1 7 2 99 two (2 ∷ 3 ∷ []) nothing)

abbrev after_swapped : SyncedRouteInfo ℕ
after_swapped = state_of (update_peer_infos read 9 8 3 77 swapped (3 ∷ 2 ∷ []) nothing)

took_two : update_peer_infos read 1 7 2 99 two (2 ∷ 3 ∷ []) nothing ≡ updated after_two
unfolding update_peer_infos update_loop after_check merge_info store_info inc_if inc_version
    check_duplicate_peer_id saved_route_id stamped raw_agrees get_peer_info_version_with_default
    is_newer put lookup new_peer_info ℕ_discrete
took_two = refl

took_swapped : update_peer_infos read 9 8 3 77 swapped (3 ∷ 2 ∷ []) nothing ≡ updated after_swapped
unfolding update_peer_infos update_loop after_check merge_info store_info inc_if inc_version
    check_duplicate_peer_id saved_route_id stamped raw_agrees get_peer_info_version_with_default
    is_newer put lookup new_peer_info ℕ_discrete
took_swapped = refl

update_peer_infos-agree_example :
    timeless (info_of after_two 3) ≡ timeless (info_of after_swapped 3)
update_peer_infos-agree_example =
    update_peer_infos-agree read 3 1 7 2 99 two (2 ∷ 3 ∷ []) nothing after_two 9 8 3 77 swapped
      (3 ∷ 2 ∷ []) nothing after_swapped two-IsSameNews refl took_two took_swapped
