-- ===== src/Client/Monitor/Presence.antt =====
-- Who is online is watched: crates/obby-client/src/monitor.rs.
use obby_client.Base.{◌≡◌, true, false, List, [], ◌∷◌, same, text_ord, arith, if◌then◌else◌}
use obby_client.Base.OrdMap
use obby_client.Base.OrdMap.{Map, get-insert, contains_key-get, get-remove}
use obby_client.Proto.Casemap.{CaseFolded}
use obby_client.Client.Monitor.{
  WatchList, new, extend, watch, unwatch, clear, mark_online, mark_offline, is_watching, is_online,
  forget_presence,
}

contains_key-insert :
    (k j : CaseFolded) (m : Map CaseFolded (Unit {0}))
    → OrdMap.contains_key j (OrdMap.insert k tt m)
      ≡ (if same k j then true else OrdMap.contains_key j m)
contains_key-insert k j m =
    rw (contains_key-get j (OrdMap.insert k tt m), get-insert k j tt m, contains_key-get j m)
      (ground arith)

contains_key-remove :
    (k j : CaseFolded) (m : Map CaseFolded (Unit {0}))
    → OrdMap.contains_key j (OrdMap.remove k m)
      ≡ (if same k j then false else OrdMap.contains_key j m)
contains_key-remove k j m =
    rw (contains_key-get j (OrdMap.remove k m), get-remove k j m, contains_key-get j m)
      (ground arith)

-- Whoever is online is watched.
abbrev pub IsWatched : WatchList → Type 0
IsWatched w = (nick : CaseFolded) → is_online nick w ≡ true → is_watching nick w ≡ true

extend-keeps :
    (fs : List CaseFolded) (nick : CaseFolded) (s : Map CaseFolded (Unit {0}))
    → OrdMap.contains_key nick s ≡ true
    → OrdMap.contains_key nick (extend fs s) ≡ true
unfolding extend
extend-keeps [] nick s h = h
extend-keeps (f ∷ fs) nick s h =
    extend-keeps fs nick (OrdMap.insert f tt s) (rw (contains_key-insert f nick s) (ground arith))

pub data Event : Type 0 where
  watched_more unwatched : List CaseFolded → Event
  cleared forgotten : Event
  came_online went_offline : CaseFolded → Event

unfoldable pub step : Event → WatchList → WatchList
step (watched_more fs) w = watch fs w
step (unwatched fs) w = unwatch fs w
step cleared w = clear w
step forgotten w = forget_presence w
step (came_online f) w = mark_online f w
step (went_offline f) w = mark_offline f w

unwatch-IsWatched : (fs : List CaseFolded) (w : WatchList) → IsWatched w → IsWatched (unwatch fs w)
unfolding unwatch
unwatch-IsWatched [] w h = h
unwatch-IsWatched (f ∷ fs) w h = unwatch-IsWatched fs _ (λ nick.
    unfold is_online is_watching in
    rw (contains_key-remove f nick w.online, contains_key-remove f nick w.watching)
      (ground (arith, h nick)))

step-IsWatched : (e : Event) (w : WatchList) → IsWatched w → IsWatched (step e w)
unfolding step watch clear forget_presence mark_online mark_offline is_online is_watching
step-IsWatched (watched_more fs) w h nick = λ o. extend-keeps fs nick w.watching (h nick o)
step-IsWatched (unwatched fs) w h nick = unwatch-IsWatched fs w h nick
step-IsWatched cleared w h nick = λ o. o
step-IsWatched forgotten w h nick = unfold OrdMap.contains_key in ground arith
step-IsWatched (came_online f) w h nick =
    rw (contains_key-insert f nick w.online, contains_key-insert f nick w.watching)
      (ground (arith, h nick))
step-IsWatched (went_offline f) w h nick =
    rw (contains_key-remove f nick w.online) (ground (arith, h nick))

unfoldable pub run : List Event → WatchList → WatchList
run [] w = w
run (e ∷ es) w = run es (step e w)

run-IsWatched : (es : List Event) (w : WatchList) → IsWatched w → IsWatched (run es w)
unfolding run
run-IsWatched [] w h = h
run-IsWatched (e ∷ es) w h = run-IsWatched es (step e w) (step-IsWatched e w h)

-- Whatever is watched, unwatched and reported, in whatever order: whoever counts as online is
-- being watched.
pub run-new-IsWatched : (es : List Event) → IsWatched (run es new)
run-new-IsWatched es =
    run-IsWatched es new (λ nick o. unfold is_online OrdMap.contains_key in ground arith)
