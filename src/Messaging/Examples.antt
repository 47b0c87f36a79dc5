-- ===== src/Messaging/Examples.antt =====
-- app/services/messaging.py at concrete tables: a guest and a cook of one restaurant, with a conversation
-- of two messages.
use fofu_backend.Base.{
  reverse, Mem, ℕ, suc, ◌+◌, ◌-◌, ◌%◌, ◌≡◌, refl, ap, String, true, false, none, some, List, [],
  ◌∷◌, ◌++◌, arith, All, ltb, length, find, any, all, select, update_where, Result, ok, err,
  if◌then◌else◌,
}
use fofu_backend.Utils.Text.{text_length, ◌<>◌, decimal}
use fofu_backend.Utils.Cursor.{
  Codec, nonnegative, invalid_cursor, max_cursor_offset, strip_equals, equals, encode_cursor,
  decode_cursor,
}
use fofu_backend.Utils.Pagination.{CodecLaws, decode_cursor-encode_cursor, strip-plain}
use fofu_backend.Utils.Digits.{read_from, read-decimal, lacks-decimal, there-decimal}
use fofu_backend.Push.Rows.{User, Settings, sandbox, qr_guest, ConversationParticipant}
use fofu_backend.Push.Enqueue.{Message, text, enqueue_message_notifications}
use fofu_backend.Cart.Rows.{Restaurant}
use fofu_backend.Messaging.Rows.{
  Conversation, restaurant, MessagingDb, MessagingError, conversation_not_found,
  client_message_id_conflict, MessageResponse, message_response, participant_or_404,
}
use fofu_backend.Messaging.Send.{
  MessageCreate, Sending, check_media, send_message, mark_conversation_read,
}
use fofu_backend.Messaging.Read.{
  ConversationResponse, conversation_response, list_messages, visible_messages, responses,
}
use fofu_backend.Messaging.Create.{ConversationCreate, create_conversation}
use fofu_backend.Messaging.Pages.{read_all, read_all_complete}
use fofu_backend.Messaging.Replay.{participant_or_404-hidden, same_content, send_message-again}
use fofu_backend.Messaging.Staff.{IsInScope}
use fofu_backend.Messaging.Contacts.{IsAdmitted, create_conversation-contacts}

abbrev settings : Settings
settings = record {
  apns_enabled = false;
  apns_bundle_id = none;
  apns_environment = sandbox;
  push_max_active_devices_per_user = 10;
  push_delivery_lease_seconds = 60;
  push_delivery_max_attempts = 8;
  push_delivery_retention_days = 7;
  push_worker_batch_size = 10;
}

abbrev visitor : User
visitor = record {
  id = 1;
  email = none;
  password_hash = none;
  display_name = "Guest";
  home_country_code = none;
  locale = "en";
  is_guest = true;
  is_active = true;
  roles = [];
}

abbrev cook : User
cook = record visitor { id = 2; display_name = "Cook"; is_guest = false }

abbrev first : Message
first = record {
  id = 20;
  conversation_id = 8;
  sender_user_id = 2;
  body = "hello";
  client_message_id = none;
  kind = text;
  media_asset_id = none;
  created_at = 100;
  edited_at = none;
  deleted_at = none;
}

abbrev dinner : Conversation
dinner = record {
  id = 8;
  kind = restaurant;
  restaurant_id = some 7;
  title = none;
  last_message_at = 0;
  created_at = 0;
  updated_at = 0;
}

abbrev venue : Restaurant
venue = record {
  id = 7;
  owner_user_id = some 2;
  is_published = true;
  name_en = "Fofu";
  name_ko = none;
  currency = "KRW";
  menu_revision = 1;
}

abbrev tables : MessagingDb
tables = record {
  push = record {
    users = visitor ∷ cook ∷ [];
    sessions = [];
    participants =
        record { conversation_id = 8; user_id = 1; last_read_at = none; joined_at = 0 }
        ∷ record { conversation_id = 8; user_id = 2; last_read_at = none; joined_at = 0 }
        ∷ [];
    devices = [];
    deliveries = [];
  };
  conversations = dinner ∷ [];
  messages = first ∷ record first { id = 21; created_at = 200 } ∷ [];
  media_assets = [];
  restaurants = venue ∷ [];
  memberships = record { restaurant_id = 7; user_id = 2; role = "owner"; status = "active" } ∷ [];
  audit_events = [];
}

-- A codec that keeps the text, and pads it as base64 does.
abbrev padding : String → ℕ
padding t = (4 - text_length t % 4) % 4

abbrev codec : Codec
codec = record {
  urlsafe_b64encode = λ t. t <> equals (padding t);
  urlsafe_b64decode = λ t. some (strip_equals t);
  read_integer = λ t. some (nonnegative (read_from 0 t));
}

laws : CodecLaws codec
laws = record {
  body = λ n. decimal n;
  padding = λ n. padding (decimal n);
  encoded = λ n. refl;
  plain = lacks-decimal;
  nonempty = there-decimal;
  few = λ n. omega arith;
  whole = λ n. omega arith;
  decoded = λ n. ap some (strip-plain (decimal n) (padding (decimal n)) (lacks-decimal n));
  read = λ n. ap (λ m. some (nonnegative m)) (read-decimal n);
}

decode_cursor-encode_cursor_example :
    decode_cursor codec (some (encode_cursor codec 40))
    ≡ (if ltb max_cursor_offset 40 then err invalid_cursor else ok 40)
decode_cursor-encode_cursor_example = decode_cursor-encode_cursor codec laws 40

takes_part :
    participant_or_404 8 1 tables
    ≡ ok (dinner, record { conversation_id = 8; user_id = 1; last_read_at = none; joined_at = 0 })
unfolding participant_or_404 find
takes_part = refl

read_all_complete_example :
    read_all codec 1 8 1 tables (suc (length (visible_messages 8 tables))) none
    ≡ some (responses tables (reverse (visible_messages 8 tables)))
unfolding visible_messages select
read_all_complete_example =
    read_all_complete codec 1 8 1 tables laws takes_part (omega arith) (omega arith)

abbrev sending : Sending
sending = record {
  digest = λ t. t;
  message_id = 30;
  now = 300;
  updated = 300;
  enqueued = 300;
  delivery_id = λ n. 90 + n;
}

abbrev payload : MessageCreate
payload = record {
  body = "two soups";
  kind = text;
  media_asset_id = none;
  client_message_id = some "k";
}

abbrev other_payload : MessageCreate
other_payload = record payload { body = "one soup" }

abbrev result_of :
    Result MessagingError (MessageResponse × MessagingDb) → MessageResponse × MessagingDb
result_of (ok r) = r
result_of (err e) = (message_response first none false tables, tables)

abbrev sent : MessageResponse × MessagingDb
sent = result_of (send_message settings sending 1 8 payload tables tables)

sends : send_message settings sending 1 8 payload tables tables ≡ ok sent
unfolding send_message find update_where enqueue_message_notifications
sends = refl

takes_part_still :
    participant_or_404 8 1 sent.1
    ≡ ok (
      record dinner { last_message_at = 300; updated_at = 300 },
      record { conversation_id = 8; user_id = 1; last_read_at = some 300; joined_at = 0 },
    )
unfolding participant_or_404 send_message find update_where enqueue_message_notifications
takes_part_still = refl

send_message-again_example :
    (m : Message) × (m.id ≡ sent.0.id)
    × (send_message settings (record sending { message_id = 31 }) 1 8 other_payload sent.1 sent.1
        ≡ (if same_content payload other_payload
            then ok (message_response m (some "k") true sent.1, sent.1)
            else err client_message_id_conflict))
send_message-again_example =
    send_message-again settings sending (record sending { message_id = 31 }) 1 8 payload
      other_payload "k" tables tables sent.1 sent.1 [] [] refl refl refl sends
      (unfold send_message find update_where enqueue_message_notifications in refl) takes_part_still
      (unfold check_media in refl)

participant_or_404-hidden_example :
    (send_message settings sending 5 8 payload tables tables ≡ err conversation_not_found)
    × (mark_conversation_read 5 8 300 tables ≡ err conversation_not_found)
    × (list_messages codec 5 8 none 20 tables ≡ err conversation_not_found)
unfolding any
participant_or_404-hidden_example =
    participant_or_404-hidden settings sending codec 5 8 payload none 20 300 tables tables refl

abbrev contact : ConversationCreate
contact = record {
  kind = restaurant;
  participant_user_ids = [];
  restaurant_id = some 7;
  title = some "Dinner";
}

-- The restaurant's tables before anybody has written to it.
abbrev quiet : MessagingDb
quiet = record tables {
  push = record tables.push { participants = [] };
  conversations = [];
  messages = [];
}

abbrev opened_by :
    Result MessagingError (ConversationResponse × MessagingDb) → ConversationResponse × MessagingDb
opened_by (ok r) = r
opened_by (err e) = (conversation_response dinner 1 tables, tables)

abbrev opened : ConversationResponse × MessagingDb
opened = opened_by (create_conversation 9 visitor contact qr_guest (some 7) 300 300 quiet)

opens : create_conversation 9 visitor contact qr_guest (some 7) 300 300 quiet ≡ ok opened
unfolding create_conversation find any all select
opens = refl

create_conversation-contacts_example :
    (r : Restaurant) × Mem r quiet.restaurants
    × (some 7 ≡ some r.id)
    × IsInScope visitor qr_guest (some 7) r
    × (added : List ConversationParticipant) × (opened.1.push.participants
        ≡ quiet.push.participants ++ added)
    × All (IsAdmitted quiet visitor r) added
create_conversation-contacts_example =
    create_conversation-contacts 9 visitor contact qr_guest (some 7) 300 300 quiet refl opens
