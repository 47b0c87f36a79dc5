-- ===== src/Messaging/Rows.antt =====
-- The tables and errors of app/services/messaging.py (app/models.py), and the responses of
-- app/schemas/messaging.py.
use fofu_backend.Base.{
  ℕ, Uuid, Time, String, Bool, ◌&&◌, Option, none, some, List, ◌==◌, find, if◌then◌else◌, Result,
  ok, or_raise, ◌>>=◌,
}
use fofu_backend.Push.Rows.{User, ConversationParticipant, Db as PushDb}
use fofu_backend.Push.Enqueue.{Message, MessageKind}
use fofu_backend.Cart.Rows.{Restaurant}
use fofu_backend.Utils.Locale.{is_blank}

pub data ConversationKind : Type 0 where
  direct restaurant : ConversationKind

pub record Conversation : Type 0 where
  pub id : Uuid
  pub kind : ConversationKind
  pub restaurant_id : Option Uuid
  pub title : Option String
  pub last_message_at : Time
  pub created_at : Time
  pub updated_at : Time

pub record MediaAsset : Type 0 where
  pub id : Uuid
  pub owner_user_id : Uuid
  pub purpose : String
  pub content_type : String
  pub status : String

pub record RestaurantMembership : Type 0 where
  pub restaurant_id : Uuid
  pub user_id : Uuid
  pub role : String
  pub status : String

-- The JSON object of each action's details.
pub data AuditDetails : Type 0 where
  no_details : AuditDetails
  sent_message : Uuid → MessageKind → Bool → Option String → AuditDetails
  created_conversation : ConversationKind → Option Uuid → ℕ → AuditDetails

pub record AuditEvent : Type 0 where
  pub actor_user_id : Uuid
  pub action : String
  pub resource_type : String
  pub resource_id : Uuid
  pub details : AuditDetails

-- The tables of users, participants, devices and deliveries are those of the outbox.
pub record MessagingDb : Type 0 where
  pub push : PushDb
  pub conversations : List Conversation
  pub messages : List Message
  pub media_assets : List MediaAsset
  pub restaurants : List Restaurant
  pub memberships : List RestaurantMembership
  pub audit_events : List AuditEvent

pub data MessagingError : Type 0 where
  conversation_not_found invalid_media_asset media_kind_mismatch : MessagingError
  client_message_id_conflict guest_messaging_scope_forbidden : MessagingError
  invalid_participants restaurant_not_found invalid_restaurant_participants : MessagingError
  restaurant_has_no_contact cursor_refused : MessagingError

pub record MessageResponse : Type 0 where
  pub id : Uuid
  pub conversation_id : Uuid
  pub sender_user_id : Uuid
  pub sender_display_name : String
  pub body : String
  pub kind : MessageKind
  pub media_asset_id : Option Uuid
  pub created_at : Time
  pub edited_at : Option Time
  pub client_message_id : Option String
  pub idempotency_replayed : Bool

abbrev pub is_participant : Uuid → Uuid → ConversationParticipant → Bool
is_participant conversation_id user_id p =
    p.conversation_id == conversation_id && p.user_id == user_id

-- `_participant_or_404`
unfoldable pub participant_or_404 :
    Uuid → Uuid → MessagingDb → Result MessagingError (Conversation × ConversationParticipant)
participant_or_404 conversation_id user_id db =
    or_raise (find (λ (c : Conversation). c.id == conversation_id) db.conversations)
      conversation_not_found
    >>= λ c.
        or_raise (find (is_participant conversation_id user_id) db.push.participants)
          conversation_not_found
        >>= λ p. ok (c, p)

abbrev pub or_unknown : Option User → String
or_unknown none = "Unknown user"
or_unknown (some u) = if is_blank u.display_name then "Unknown user" else u.display_name

abbrev pub or_own : Option String → Option String → Option String
or_own none own = own
or_own (some given) own = some given

-- `_message_response`
unfoldable pub message_response : Message → Option String → Bool → MessagingDb → MessageResponse
message_response m client_message_id replayed db = record {
  id = m.id;
  conversation_id = m.conversation_id;
  sender_user_id = m.sender_user_id;
  sender_display_name = or_unknown (find (λ (u : User). u.id == m.sender_user_id) db.push.users);
  body = m.body;
  kind = m.kind;
  media_asset_id = m.media_asset_id;
  created_at = m.created_at;
  edited_at = m.edited_at;
  client_message_id = or_own client_message_id m.client_message_id;
  idempotency_replayed = replayed;
}
