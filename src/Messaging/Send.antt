-- ===== src/Messaging/Send.antt =====
-- app/services/messaging.py: `send_message` and `mark_conversation_read`.
use fofu_backend.Base.{
  ℕ, Uuid, Time, String, Bool, true, false, not, ◌&&◌, ◌||◌, Option, none, some, [], ◌∷◌, ◌++◌,
  ◌==◌, str_eq, is_some, find, update_where, Result, ok, raise_if, or_raise, ◌>>=◌, ◌>>◌,
}
use fofu_backend.Push.Rows.{Settings}
use fofu_backend.Push.Enqueue.{
  Message, MessageKind, text, image, document, enqueue_message_notifications,
}
use fofu_backend.Messaging.Rows.{
  Conversation, MediaAsset, AuditDetails, no_details, sent_message, MessagingDb, MessagingError,
  invalid_media_asset, media_kind_mismatch, client_message_id_conflict, MessageResponse,
  is_participant, participant_or_404, message_response,
}

pub record MessageCreate : Type 0 where
  pub body : String
  pub kind : MessageKind
  pub media_asset_id : Option Uuid
  pub client_message_id : Option String

abbrev pub same_kind : MessageKind → MessageKind → Bool
same_kind text text = true
same_kind image image = true
same_kind document document = true
same_kind _ _ = false

abbrev pub same_id : Option Uuid → Option Uuid → Bool
same_id none none = true
same_id (some a) (some b) = a == b
same_id _ _ = false

-- The first group of conditions on the media asset.
unfoldable pub is_attachable : Uuid → MediaAsset → Bool
is_attachable user_id media =
    media.owner_user_id == user_id
    && (str_eq media.status "uploaded" && str_eq media.purpose "message_attachment")

-- `media.content_type in expected_types`
unfoldable pub has_expected_type : MessageKind → MediaAsset → Bool
has_expected_type image media =
    str_eq media.content_type "image/jpeg" || str_eq media.content_type "image/png"
has_expected_type _ media = str_eq media.content_type "application/pdf"

unfoldable pub check_media :
    Uuid → MessageKind → Option Uuid → MessagingDb → Result MessagingError (Unit {0})
unfolding is_attachable has_expected_type
check_media user_id kind none db = ok tt
check_media user_id kind (some media_id) db =
    or_raise (find (λ (a : MediaAsset). a.id == media_id) db.media_assets) invalid_media_asset
    >>= λ media.
        raise_if (not (is_attachable user_id media)) invalid_media_asset
        >> raise_if (not (has_expected_type kind media)) media_kind_mismatch

abbrev pub has_client_id : String → Option String → Bool
has_client_id t none = false
has_client_id t (some u) = str_eq u t

-- Columns of the table's unique constraint.
abbrev pub is_message_of : Uuid → Uuid → String → Message → Bool
is_message_of conversation_id user_id client_message_id m =
    m.conversation_id == conversation_id
    && (m.sender_user_id == user_id && has_client_id client_message_id m.client_message_id)

-- `existing`; the schema refuses an empty id.
unfoldable pub existing_message : Uuid → Uuid → Option String → MessagingDb → Option Message
existing_message conversation_id user_id none db = none
existing_message conversation_id user_id (some client_message_id) db =
    find (is_message_of conversation_id user_id client_message_id) db.messages

-- The conditions of `_validate_replayed_message`.
unfoldable pub is_other_message : Uuid → Uuid → MessageCreate → Message → Bool
is_other_message conversation_id user_id payload m =
    not (m.sender_user_id == user_id)
    || (not (m.conversation_id == conversation_id)
        || (not (str_eq m.body payload.body)
            || (not (same_kind m.kind payload.kind)
                || not (same_id m.media_asset_id payload.media_asset_id))))

-- The message as `seen` has it; no table is changed.
unfoldable pub replay_message :
    Uuid
    → Uuid
    → MessageCreate
    → Message
    → MessagingDb
    → MessagingDb
    → Result MessagingError (MessageResponse × MessagingDb)
unfolding is_other_message message_response
replay_message conversation_id user_id payload m seen db =
    raise_if (is_other_message conversation_id user_id payload m) client_message_id_conflict
    >> ok (message_response m payload.client_message_id true seen, db)

abbrev pub new_message : Uuid → Uuid → Uuid → MessageCreate → Time → Message
new_message id conversation_id user_id payload now = record {
  id = id;
  conversation_id = conversation_id;
  sender_user_id = user_id;
  body = payload.body;
  client_message_id = payload.client_message_id;
  kind = payload.kind;
  media_asset_id = payload.media_asset_id;
  created_at = now;
  edited_at = none;
  deleted_at = none;
}

-- `participant.last_read_at = now`
unfoldable pub mark_read : Uuid → Uuid → Time → MessagingDb → MessagingDb
mark_read conversation_id user_id now db = record db {
  push = record db.push {
    participants =
        update_where (is_participant conversation_id user_id)
          (λ p. record p { last_read_at = some now }) db.push.participants;
  };
}

-- `_audit`
unfoldable pub audit : Uuid → String → Uuid → AuditDetails → MessagingDb → MessagingDb
audit user_id action conversation_id details db = record db {
  audit_events =
      db.audit_events
      ++ record {
        actor_user_id = user_id;
        action = action;
        resource_type = "conversation";
        resource_id = conversation_id;
        details = details;
      }
        ∷ [];
}

-- What a new message is given from outside: the digest, its id, the readings of the clock and the ids of
-- the deliveries.
pub record Sending : Type 0 where
  pub digest : String → String
  pub message_id : Uuid
  pub now : Time
  pub updated : Time
  pub enqueued : Time
  pub delivery_id : ℕ → Uuid

abbrev pub digest_of : (String → String) → Option String → Option String
digest_of digest none = none
digest_of digest (some t) = some (digest t)

-- The statements of a new message up to the flush.
unfoldable pub add_message : Sending → Message → MessagingDb → MessagingDb
unfolding mark_read
add_message sending m db = mark_read m.conversation_id m.sender_user_id sending.now (record db {
  messages = db.messages ++ m ∷ [];
  conversations =
      update_where (λ (c : Conversation). c.id == m.conversation_id)
        (λ c. record c { last_message_at = sending.now; updated_at = sending.updated })
        db.conversations;
})

-- Those after it.
unfoldable pub announce : Settings → Sending → Message → MessagingDb → MessagingDb
unfolding audit
announce settings sending m db =
    let audited =
      audit m.sender_user_id "message.sent" m.conversation_id
        (sent_message m.id m.kind (is_some m.media_asset_id)
          (digest_of sending.digest m.client_message_id))
        db in
    record audited {
      push =
          (enqueue_message_notifications settings m sending.enqueued sending.delivery_id
            audited.push).0;
    }

unfoldable pub insert_message :
    Settings
    → Sending
    → Uuid
    → Uuid
    → MessageCreate
    → MessagingDb
    → Result MessagingError (MessageResponse × MessagingDb)
unfolding add_message announce message_response
insert_message settings sending conversation_id user_id payload db =
    let m = new_message sending.message_id conversation_id user_id payload sending.now in
    let db' = announce settings sending m (add_message sending m db) in
    ok (message_response m payload.client_message_id false db', db')

-- A flush that meets a message with the same unique columns fails, and that message is replayed.
unfoldable pub flush_message :
    Settings
    → Sending
    → Uuid
    → Uuid
    → MessageCreate
    → Option Message
    → MessagingDb
    → Result MessagingError (MessageResponse × MessagingDb)
unfolding replay_message insert_message
flush_message settings sending conversation_id user_id payload (some m) db =
    replay_message conversation_id user_id payload m db db
flush_message settings sending conversation_id user_id payload none db =
    insert_message settings sending conversation_id user_id payload db

unfoldable pub replay_or_send :
    Settings
    → Sending
    → Uuid
    → Uuid
    → MessageCreate
    → Option Message
    → MessagingDb
    → MessagingDb
    → Result MessagingError (MessageResponse × MessagingDb)
unfolding replay_message flush_message existing_message
replay_or_send settings sending conversation_id user_id payload (some m) seen db =
    replay_message conversation_id user_id payload m seen db
replay_or_send settings sending conversation_id user_id payload none seen db =
    flush_message settings sending conversation_id user_id payload
      (existing_message conversation_id user_id payload.client_message_id db) db

-- `send_message`: `seen` are the tables that the queries read, and `db` those at the flush, where other
-- requests may have written in between.
unfoldable pub send_message :
    Settings
    → Sending
    → Uuid
    → Uuid
    → MessageCreate
    → MessagingDb
    → MessagingDb
    → Result MessagingError (MessageResponse × MessagingDb)
unfolding participant_or_404 check_media existing_message replay_or_send
send_message settings sending user_id conversation_id payload seen db =
    participant_or_404 conversation_id user_id seen >>= λ row.
    check_media user_id payload.kind payload.media_asset_id seen
    >> replay_or_send settings sending conversation_id user_id payload
        (existing_message conversation_id user_id payload.client_message_id seen) seen db

pub record ReadReceipt : Type 0 where
  pub conversation_id : Uuid
  pub user_id : Uuid
  pub last_read_at : Time

unfoldable pub mark_conversation_read :
    Uuid → Uuid → Time → MessagingDb → Result MessagingError (ReadReceipt × MessagingDb)
unfolding participant_or_404 mark_read audit
mark_conversation_read user_id conversation_id now db =
    participant_or_404 conversation_id user_id db >>= λ row. ok (
      record { conversation_id = conversation_id; user_id = user_id; last_read_at = now },
      audit user_id "conversation.read" conversation_id no_details
          (mark_read conversation_id user_id now db),
    )
