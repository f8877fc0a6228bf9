-- ===== src/Client/Monitor.antt =====
-- Watching whether people are online: crates/obby-client/src/monitor.rs.
pub mod Presence
pub mod Requests
use obby_client.Base.{
  ℕ, zero, suc, ◌≡◌, Bool, not, List, [], ◌∷◌, map, Text, split, join, retain, is_nil, take, drop,
  max, chunks, text_ord, length,
}
use obby_client.Base.OrdMap
use obby_client.Base.OrdMap.{Map}
use obby_client.Proto.Casemap.{CaseFolded}

pub record WatchList : Type 0 where
  pub watching : Map CaseFolded (Unit {0})
  pub online : Map CaseFolded (Unit {0})

abbrev pub new : WatchList
new = record { watching = []; online = [] }

unfoldable pub extend : List CaseFolded → Map CaseFolded (Unit {0}) → Map CaseFolded (Unit {0})
extend [] s = s
extend (f ∷ fs) s = extend fs (OrdMap.insert f tt s)

unfoldable pub watch : List CaseFolded → WatchList → WatchList
unfolding extend
watch folded w = record w { watching = extend folded w.watching }

unfoldable pub unwatch : List CaseFolded → WatchList → WatchList
unwatch [] w = w
unwatch (nick ∷ folded) w =
    unwatch folded
      (record { watching = OrdMap.remove nick w.watching; online = OrdMap.remove nick w.online })

unfoldable pub clear : WatchList → WatchList
clear w = record { watching = []; online = [] }

unfoldable pub mark_online : CaseFolded → WatchList → WatchList
mark_online folded w = record {
  watching = OrdMap.insert folded tt w.watching;
  online = OrdMap.insert folded tt w.online;
}

unfoldable pub mark_offline : CaseFolded → WatchList → WatchList
mark_offline folded w = record w { online = OrdMap.remove folded w.online }

unfoldable pub is_watching : CaseFolded → WatchList → Bool
is_watching folded w = OrdMap.contains_key folded w.watching

unfoldable pub is_online : CaseFolded → WatchList → Bool
is_online folded w = OrdMap.contains_key folded w.online

unfoldable pub watched : WatchList → List CaseFolded
watched w = map (λ e. e.0) w.watching

unfoldable pub watched_length : WatchList → ℕ
watched_length w = length w.watching

unfoldable pub is_empty : WatchList → Bool
is_empty w = is_nil w.watching

unfoldable pub forget_presence : WatchList → WatchList
forget_presence w = record w { online = [] }

-- The chunks are of `targets.chunks(per_request)`.
unfoldable pub batched : List Text → ℕ → List Text
batched targets limit = map (join b',') (chunks (max limit 1) targets)

unfoldable pub split_targets : Text → List Text
split_targets list = retain (λ t. not (is_nil t)) (split b',' list)
