-- ===== src/Team/MessageBus/Samples.antt =====
-- nexau/archs/main_sub/team/message_bus.py: a table of messages to run the bus on.
use nex_au.Prelude.{◌≡◌, refl, true, none, some, [], ◌∷◌, nat_eq, list_eq, contains, All}
use nex_au.Prelude.Text.{text}
use nex_au.Orm.{value_eq}
use nex_au.Orm.Engine.{Table}
use nex_au.Orm.Engine.Keys.{WellKeyed}
use nex_au.Orm.Engine.Batches.{keys}
use nex_au.Session.TaskLock.{Scope}
use nex_au.Team.MessageBus.{MessageRow, message_pk, new_message, send, broadcast, drain}
use nex_au.Team.MessageBus.Drains.{ToOrFrom, drain-again, drain-drain}
use nex_au.Team.MessageBus.Sending.{send-drain, broadcast-drain}

abbrev scope : Scope
scope = record { user_id = text "u"; session_id = text "s"; team_id = text "t" }

abbrev note : MessageRow
note =
    new_message scope (text "1") (text "leader") (some (text "ann")) (text "Start") (text "text") 1

abbrev call_out : MessageRow
call_out = new_message scope (text "2") (text "leader") none (text "All here?") (text "text") 2

abbrev letters : Table MessageRow
letters = (message_pk note, note) ∷ (message_pk call_out, call_out) ∷ []

letters-WellKeyed : WellKeyed message_pk letters
letters-WellKeyed = (refl, refl, (refl, refl, tt))

drain-again_example : (drain scope (text "ann") 4 (drain scope (text "ann") 3 letters).0).1 ≡ []
drain-again_example = drain-again scope (text "ann") 3 letters letters-WellKeyed 4

drain-drain_example :
    All
      (λ m. ToOrFrom (text "bob") (text "ann") m)
      (drain scope (text "bob") 4 (drain scope (text "ann") 3 letters).0).1
drain-drain_example = drain-drain scope (text "ann") (text "bob") 3 4 letters letters-WellKeyed

send-drain_example :
    contains
      (keys message_pk
        (drain scope
          (text "bob")
          6
          (send scope true
            (text "3")
            (text "ann")
            (text "bob")
            (text "Hi")
            (text "text")
            5
            letters).0).1)
      (message_pk
        (new_message scope (text "3") (text "ann") (some (text "bob")) (text "Hi") (text "text") 5))
    ≡ true
send-drain_example =
    send-drain scope true (text "3") (text "ann") (text "bob") (text "Hi") (text "text") 5 6 letters
      letters-WellKeyed refl

broadcast-drain_example :
    contains
      (keys message_pk
        (drain scope
          (text "bob")
          6
          (broadcast scope
            (text "ann" ∷ text "bob" ∷ [])
            (text "3")
            (text "ann")
            (text "Hi")
            5
            letters).0).1)
      (message_pk (new_message scope (text "3") (text "ann") none (text "Hi") (text "text") 5))
    ≡ true
broadcast-drain_example =
    broadcast-drain scope (text "ann" ∷ text "bob" ∷ []) (text "3") (text "ann") (text "bob")
      (text "Hi") 5 6 letters letters-WellKeyed refl refl
