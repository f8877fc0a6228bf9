-- ===== src/Client/Model/Rename.antt =====
-- A nick change moves a person everywhere: `rename` of crates/obby-client/src/model.rs.
use obby_client.Base.{
  ◌≡◌, refl, ap, ◌∙◌, Option, none, some, [], ◌∷◌, Text, if◌then◌else◌, arith, text_ord, same,
}
use mathlib.Core.Option
use obby_client.Base.OrdMap
use obby_client.Base.OrdMap.{Map, get-insert, get-remove}
use obby_client.Proto.Casemap
use obby_client.Proto.Casemap.{CaseFolded, Casemapping}
use obby_client.Client.Model.{
  Model, Channel, Membership, rename, rename_member, move_key, moved, map_values, channel,
  conversation, person,
}

unfoldable pub where_moved :
    {V : Type 0} → CaseFolded → CaseFolded → (V → V) → Option V → Option V → CaseFolded → Option V
where_moved old new change none unmoved key = unmoved
where_moved old new change (some v) unmoved key =
    if same new key then some (change v) else if same old key then none else unmoved

moved-get :
    {V : Type 0} (old new : CaseFolded) (change : V → V) (o : Option V) (m : Map CaseFolded V)
    (key : CaseFolded)
    → OrdMap.get key (moved old new change o m)
      ≡ where_moved old new change o (OrdMap.get key m) key
unfolding moved where_moved
moved-get old new change none m key = refl
moved-get old new change (some v) m key =
    get-insert new key (change v) (OrdMap.remove old m)
    ∙ ap (λ o. if same new key then some (change v) else o) (get-remove old key m)

-- The lookup after a move: the entry of the old name, changed, is under the new one, and no longer
-- under the old one. Where there was none, nothing changes.
unfoldable pub after_move :
    {V : Type 0}
    → CaseFolded
    → CaseFolded
    → (V → V)
    → (CaseFolded → Option V)
    → CaseFolded
    → Option V
unfolding where_moved
after_move old new change look key = where_moved old new change (look old) (look key) key

move_key-get :
    {V : Type 0} (old new : CaseFolded) (change : V → V) (m : Map CaseFolded V) (key : CaseFolded)
    → OrdMap.get key (move_key old new change m)
      ≡ after_move old new change (λ k. OrdMap.get k m) key
unfolding move_key after_move
move_key-get old new change m key = moved-get old new change (OrdMap.get old m) m key

map_values-get :
    {V : Type 0} (f : V → V) (m : Map CaseFolded V) (key : CaseFolded)
    → OrdMap.get key (map_values f m) ≡ Option.map f (OrdMap.get key m)
unfolding map_values OrdMap.get
map_values-get f [] key = refl
map_values-get f ((k, v) ∷ m) key = ground (arith, map_values-get f m key)

module _ {L : Type 0} where
  -- What a lookup of a member of a channel gives.
  unfoldable pub member : CaseFolded → Option (Channel L) → Option Membership
  member key none = none
  member key (some c) = OrdMap.get key c.members

  member-rename_member :
      (old new key : CaseFolded) (o : Option (Channel L))
      → member key (Option.map (rename_member old new) o)
        ≡ after_move old new (λ v. v) (λ k. member k o) key
  unfolding member rename_member after_move where_moved
  member-rename_member old new key none = refl
  member-rename_member old new key (some c) =
      move_key-get old new (λ v. v) c.members key ∙ (unfold after_move in refl)

  -- A nick change moves the person, the conversation and, in every channel, the membership from the
  -- old name to the new one, with the new nick written in the first two: each lookup of the old name
  -- then finds nothing, unless the two fold to one name, the new one finds what the old one held,
  -- and every other name, and all names where the old one was not held, find what they found.
  pub rename-moves :
      (casemapping : Casemapping) (from to : Text) (m : Model L) (key place : CaseFolded)
      → let old = Casemap.fold casemapping from in
        let new = Casemap.fold casemapping to in
        let n = rename casemapping from to m in
        (person key n ≡ after_move old new (λ p. record p { nick = to }) (λ k. person k m) key)
        × (conversation key n
            ≡ after_move old new (λ q. record q { nick = to }) (λ k. conversation k m) key)
        × (member key (channel place n)
            ≡ after_move old new (λ v. v) (λ k. member k (channel place m)) key)
  unfolding rename person conversation channel
  rename-moves casemapping from to m key place =
      let old = Casemap.fold casemapping from in
      let new = Casemap.fold casemapping to in
      (
        move_key-get old new (λ p. record p { nick = to }) m.people key,
        move_key-get old new (λ q. record q { nick = to }) m.conversations key,
        ap (member key) (map_values-get (rename_member old new) m.channels place)
            ∙ member-rename_member old new key (OrdMap.get place m.channels),
      )
