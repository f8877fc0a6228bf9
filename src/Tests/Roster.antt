-- ===== src/Tests/Roster.antt =====
-- Members, people and WHOIS records on concrete inputs: crates/obby-client/src/model.rs.
use obby_client.Base.{
  ℕ, ◌≡◌, ◌≤◌, ◌||◌, ◌==◌, true, none, some, [], ◌∷◌, text, length, arith, has_char, text_ord,
}
use obby_client.Base.OrdMap.Sorted.{IsSorted}
use obby_client.Proto.Casemap
use obby_client.Proto.Casemap.{ascii}
use obby_client.Proto.Isupport.{default_prefix}
use obby_client.Client.Model
use obby_client.Client.Model.{
  Membership, Person, person_named, Whois, max_whois_records, whois, whois_or_insert, rename, grant,
  rank_key, person, conversation, channel,
}
use obby_client.Client.Model.Records.{IsFilledIn, whois_or_insert-bound}
use obby_client.Client.Model.Rename.{after_move, member, rename-moves}
use obby_client.Client.Model.Ranks.{IsRanked, grant-IsRanked}

abbrev empty : Model.Model (Unit {0})
empty = record {
  me = record { nick = text "me"; account = none; modes = []; metadata = []; away = none };
  channels = [];
  conversations = [];
  people = (text "ann", person_named (text "Ann")) ∷ [];
  whois = [];
  retention = 10;
  next_seq = 0;
}

abbrev on_tls : Whois → Whois
on_tls r = record r { secure = true }

whois_or_insert-bound_example :
    (length (whois_or_insert (text "ann") (text "Ann") on_tls empty).whois ≤ max_whois_records)
    × IsSorted (whois_or_insert (text "ann") (text "Ann") on_tls empty).whois
    × ((r : Whois) × IsFilledIn (text "Ann") (whois (text "ann") empty) r
        × (whois (text "ann") (whois_or_insert (text "ann") (text "Ann") on_tls empty)
            ≡ some (on_tls r)))
whois_or_insert-bound_example =
    whois_or_insert-bound (text "ann") (text "Ann") on_tls empty tt (omega arith)

rename-moves_example :
    let old = Casemap.fold ascii (text "Ann") in
    let new = Casemap.fold ascii (text "Bea") in
    let n = rename ascii (text "Ann") (text "Bea") empty in
    (person (text "bea") n
      ≡ after_move old new (λ p. record p { nick = text "Bea" }) (λ k. person k empty) (text "bea"))
    × (conversation (text "bea") n
        ≡ after_move old new
            (λ q. record q { nick = text "Bea" })
            (λ k. conversation k empty)
            (text "bea"))
    × (member (text "bea") (channel (text "#c") n)
        ≡ after_move old new (λ v. v) (λ k. member k (channel (text "#c") empty)) (text "bea"))
rename-moves_example = rename-moves ascii (text "Ann") (text "Bea") empty (text "bea") (text "#c")

abbrev voiced : Membership
voiced = record { prefixes = text "+" }

grant-IsRanked_example :
    IsRanked (rank_key default_prefix) (grant b'@' default_prefix voiced).prefixes
    × ((c : ℕ)
        → has_char (grant b'@' default_prefix voiced).prefixes c
          ≡ (has_char voiced.prefixes c || b'@' == c))
grant-IsRanked_example = grant-IsRanked b'@' default_prefix voiced (tt, tt)
