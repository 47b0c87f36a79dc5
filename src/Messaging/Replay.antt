-- ===== src/Messaging/Replay.antt =====
-- A message that is sent twice in app/services/messaging.py, and who may send and read.
use fofu_backend.Base.{
  ℕ, Uuid, Time, ◌≡◌, refl, ◌∙◌, if◌then◌else◌, inl, inr, String, Bool, true, false, not, ◌&&◌,
  Option, none, some, List, ◌++◌, arith, ◌==◌, ==_refl, ==_iff, ap, sym, eq_iff, str_eq, find,
  find-any, find-append, find-appended, any, Option-cases, Bool-cases, ok, err, Returns,
  Returns-after, Returns-raise_if, Returns-elim,
}
use fofu_backend.Push.Rows.{Settings, ConversationParticipant}
use fofu_backend.Push.Enqueue.{Message, MessageKind, text, image, document}
use fofu_backend.Messaging.Rows.{
  Conversation, MessagingDb, conversation_not_found, client_message_id_conflict, MessageResponse,
  is_participant, participant_or_404, message_response,
}
use fofu_backend.Messaging.Send.{
  MessageCreate, Sending, same_kind, same_id, check_media, is_message_of, existing_message,
  is_other_message, replay_message, new_message, mark_read, audit, add_message, announce,
  insert_message, flush_message, replay_or_send, send_message, mark_conversation_read,
}
use fofu_backend.Messaging.Read.{list_messages}
use fofu_backend.Utils.Cursor.{Codec}

-- A user who takes no part in a conversation is answered as for one that does not exist, whatever is asked
-- of it: sending, reading and marking as read.
pub participant_or_404-hidden :
    (settings : Settings) (sending : Sending) (codec : Codec) (user_id conversation_id : Uuid)
    (payload : MessageCreate) (cursor : Option String) (limit : ℕ) (now : Time)
    (seen db : MessagingDb)
    → any (is_participant conversation_id user_id) seen.push.participants ≡ false
    → (send_message settings sending user_id conversation_id payload seen db
        ≡ err conversation_not_found)
      × (mark_conversation_read user_id conversation_id now seen ≡ err conversation_not_found)
      × (list_messages codec user_id conversation_id cursor limit seen ≡ err conversation_not_found)
participant_or_404-hidden settings sending codec user_id conversation_id payload cursor limit now
      seen db outside =
    (
      unfold send_message in rw hidden refl,
      unfold mark_conversation_read in rw hidden refl,
      unfold list_messages in rw hidden refl,
    )
  where
    hidden : participant_or_404 conversation_id user_id seen ≡ err conversation_not_found
    hidden =
        unfold participant_or_404 in
        elim (Option-cases
          (find (λ (c : Conversation). c.id == conversation_id) seen.conversations)) [
            | inl missing ↦ rw missing refl
            | inr (c, found) ↦
                rw
                  (
                    found,
                    find-any (is_participant conversation_id user_id) seen.push.participants
                        outside,
                  )
                  refl
          ]

same_kind-eq : (a b : MessageKind) → same_kind a b ≡ true → a ≡ b
same_kind-eq text text h = refl
same_kind-eq image image h = refl
same_kind-eq document document h = refl
same_kind-eq text image h = absurd (ground arith)
same_kind-eq text document h = absurd (ground arith)
same_kind-eq image text h = absurd (ground arith)
same_kind-eq image document h = absurd (ground arith)
same_kind-eq document text h = absurd (ground arith)
same_kind-eq document image h = absurd (ground arith)

same_id-eq : (a b : Option Uuid) → same_id a b ≡ true → a ≡ b
same_id-eq none none h = refl
same_id-eq none (some b) h = absurd (ground arith)
same_id-eq (some a) none h = absurd (ground arith)
same_id-eq (some a) (some b) h = ap some ((==_iff a b).0 h)

-- The message has the columns that are compared.
abbrev IsOf : Uuid → Uuid → MessageCreate → Message → Type 0
IsOf conversation_id user_id payload m =
    (m.sender_user_id ≡ user_id)
    × (m.conversation_id ≡ conversation_id)
    × (m.body ≡ payload.body)
    × (m.kind ≡ payload.kind)
    × (m.media_asset_id ≡ payload.media_asset_id)

checked-IsOf :
    (conversation_id user_id : Uuid) (payload : MessageCreate) (m : Message)
    → is_other_message conversation_id user_id payload m ≡ false
    → IsOf conversation_id user_id payload m
unfolding is_other_message
checked-IsOf conversation_id user_id payload m same = (
  (==_iff m.sender_user_id user_id).0 (ground (arith, same)),
  (==_iff m.conversation_id conversation_id).0 (ground (arith, same)),
  (eq_iff m.body payload.body).0 (ground (arith, same)),
  same_kind-eq m.kind payload.kind (ground (arith, same)),
  same_id-eq m.media_asset_id payload.media_asset_id (ground (arith, same)),
)

-- The contents of two requests agree.
unfoldable pub same_content : MessageCreate → MessageCreate → Bool
same_content p q =
    str_eq p.body q.body && (same_kind p.kind q.kind && same_id p.media_asset_id q.media_asset_id)

IsOf-other :
    (conversation_id user_id : Uuid) (p q : MessageCreate) (m : Message)
    → IsOf conversation_id user_id p m
    → is_other_message conversation_id user_id q m ≡ not (same_content p q)
unfolding is_other_message same_content
IsOf-other conversation_id user_id p q m (sender, conversation, body, kind, media) =
    rw (sender, conversation, body, kind, media, ==_refl user_id, ==_refl conversation_id)
      (ground arith)

-- The tables keep the message that was returned, under its client's id.
abbrev IsKept : Uuid → Uuid → MessageCreate → String → MessageResponse × MessagingDb → Type 0
IsKept conversation_id user_id payload t r =
    (m : Message) × (find (is_message_of conversation_id user_id t) r.1.messages ≡ some m)
    × (m.id ≡ r.0.id)
    × IsOf conversation_id user_id payload m

existing_named :
    (conversation_id user_id : Uuid) (t : String) (db : MessagingDb) {o : Option String}
    → o ≡ some t
    → existing_message conversation_id user_id o db
      ≡ find (is_message_of conversation_id user_id t) db.messages
unfolding existing_message
existing_named conversation_id user_id t db named = rw named refl

module _ (settings : Settings) (sending : Sending) (conversation_id user_id : Uuid)
    (payload : MessageCreate) (t : String) where
  replay_message-IsKept :
      (m : Message) (seen db : MessagingDb)
      → find (is_message_of conversation_id user_id t) db.messages ≡ some m
      → Returns
          (IsKept conversation_id user_id payload t)
          (replay_message conversation_id user_id payload m seen db)
  unfolding replay_message
  replay_message-IsKept m seen db held =
      Returns-raise_if (IsKept conversation_id user_id payload t)
        (is_other_message conversation_id user_id payload m) client_message_id_conflict _
        λ same. (
          m,
          held,
          unfold message_response in refl,
          checked-IsOf conversation_id user_id payload m same,
        )

  insert_message-IsKept :
      (db : MessagingDb)
      → payload.client_message_id ≡ some t
      → find (is_message_of conversation_id user_id t) db.messages ≡ none
      → Returns
          (IsKept conversation_id user_id payload t)
          (insert_message settings sending conversation_id user_id payload db)
  unfolding insert_message add_message announce mark_read audit message_response
  insert_message-IsKept db named unused = (
    new_message sending.message_id conversation_id user_id payload sending.now,
    find-appended (is_message_of conversation_id user_id t) db.messages
        (new_message sending.message_id conversation_id user_id payload sending.now) unused
        (rw (named, ==_refl conversation_id, ==_refl user_id, (eq_iff t t).1 refl) refl),
    refl,
    (refl, refl, refl, refl, refl),
  )

  flush_message-IsKept :
      (db : MessagingDb) (o : Option Message)
      → payload.client_message_id ≡ some t
      → find (is_message_of conversation_id user_id t) db.messages ≡ o
      → Returns
          (IsKept conversation_id user_id payload t)
          (flush_message settings sending conversation_id user_id payload o db)
  unfolding flush_message
  flush_message-IsKept db none named found = insert_message-IsKept db named found
  flush_message-IsKept db (some m) named found = replay_message-IsKept m db db found

  replay_or_send-IsKept :
      (seen db : MessagingDb) (others : List Message) (o : Option Message)
      → payload.client_message_id ≡ some t
      → db.messages ≡ seen.messages ++ others
      → find (is_message_of conversation_id user_id t) seen.messages ≡ o
      → Returns
          (IsKept conversation_id user_id payload t)
          (replay_or_send settings sending conversation_id user_id payload o seen db)
  unfolding replay_or_send existing_message
  replay_or_send-IsKept seen db others none named added found =
      flush_message-IsKept db
        (existing_message conversation_id user_id payload.client_message_id db) named
        (sym (existing_named conversation_id user_id t db named))
  replay_or_send-IsKept seen db others (some m) named added found =
      replay_message-IsKept m seen db (
        rw added (find-append (is_message_of conversation_id user_id t) seen.messages others found))

known_send :
    (settings : Settings) (later : Sending) (user_id conversation_id : Uuid)
    (payload next : MessageCreate) (m : Message) (seen db : MessagingDb)
    {row : Conversation × ConversationParticipant}
    → existing_message conversation_id user_id next.client_message_id seen ≡ some m
    → IsOf conversation_id user_id payload m
    → participant_or_404 conversation_id user_id seen ≡ ok row
    → check_media user_id next.kind next.media_asset_id seen ≡ ok tt
    → send_message settings later user_id conversation_id next seen db ≡ (
        if same_content payload next
        then ok (message_response m next.client_message_id true seen, db)
        else err client_message_id_conflict)
unfolding send_message replay_or_send replay_message
known_send settings later user_id conversation_id payload next m seen db known is_of takes_part
      allowed =
    rw (takes_part, allowed, known, IsOf-other conversation_id user_id payload next m is_of)
      (elim (Bool-cases (same_content payload next)) [ inl e ↦ rw e refl | inr e ↦ rw e refl ])

-- A message with a client's id has been sent, where other requests may have added messages since the first
-- query. Whenever the user sends to the conversation again under that id, as a participant and with media
-- that may be attached, no table is changed: the message is returned as replayed, where the contents
-- agree, and the call is refused with `client_message_id_conflict` where they do not.
pub send_message-again :
    (settings : Settings) (sending later : Sending) (user_id conversation_id : Uuid)
    (payload next : MessageCreate) (t : String) (seen db seen' db' : MessagingDb)
    (others more : List Message) {r : MessageResponse} {sent : MessagingDb}
    {row : Conversation × ConversationParticipant}
    → payload.client_message_id ≡ some t
    → next.client_message_id ≡ some t
    → db.messages ≡ seen.messages ++ others
    → send_message settings sending user_id conversation_id payload seen db ≡ ok (r, sent)
    → seen'.messages ≡ sent.messages ++ more
    → participant_or_404 conversation_id user_id seen' ≡ ok row
    → check_media user_id next.kind next.media_asset_id seen' ≡ ok tt
    → (m : Message) × (m.id ≡ r.id)
      × (send_message settings later user_id conversation_id next seen' db' ≡ (
          if same_content payload next
          then ok (message_response m next.client_message_id true seen', db')
          else err client_message_id_conflict))
send_message-again settings sending later user_id conversation_id payload next t seen db seen' db'
      others more {r} {sent} {row} named next_named added answered kept_on takes_part allowed =
    let (m, held, same, is_of) =
      Returns-elim (IsKept conversation_id user_id payload t)
        (send_message settings sending user_id conversation_id payload seen db)
        (unfold send_message in
          Returns-after (IsKept conversation_id user_id payload t)
            (participant_or_404 conversation_id user_id seen) _
            λ pair.
              Returns-after (IsKept conversation_id user_id payload t)
                (check_media user_id payload.kind payload.media_asset_id seen) _
                λ _.
                  replay_or_send-IsKept settings sending conversation_id user_id payload t seen db
                    others (existing_message conversation_id user_id payload.client_message_id seen)
                    named added (sym (existing_named conversation_id user_id t seen named)))
        answered in
    let known =
      existing_named conversation_id user_id t seen' next_named
      ∙ (ap (find (is_message_of conversation_id user_id t)) kept_on
          ∙ find-append (is_message_of conversation_id user_id t) sent.messages more held) in
    (
      m,
      same,
      known_send settings later user_id conversation_id payload next m seen' db' known is_of
          takes_part allowed,
    )
