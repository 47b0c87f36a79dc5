-- ===== src/Messaging/Read.antt =====
-- app/services/messaging.py: the pages of a conversation's messages, and how a conversation is shown.
use fofu_backend.Base.{
  drop, reverse, ℕ, suc, Uuid, Time, ◌+◌, String, Bool, true, false, not, ◌&&◌, ◌||◌, Option, none,
  some, List, [], ◌∷◌, map, ◌==◌, ltb, is_none, find, select, count_if, length, take, if◌then◌else◌,
  Result, ok, err, ◌>>=◌,
}
use fofu_backend.Utils.Cursor.{Codec, CursorError, encode_cursor, decode_cursor}
use fofu_backend.Push.Rows.{User, ConversationParticipant}
use fofu_backend.Push.Enqueue.{Message}
use fofu_backend.Messaging.Rows.{
  ConversationKind, Conversation, MessagingDb, MessagingError, cursor_refused, MessageResponse,
  participant_or_404, message_response,
}

-- `order_by(created_at.desc(), id.desc())`
abbrev pub is_newer : Message → Message → Bool
is_newer m n = ltb n.created_at m.created_at || (m.created_at == n.created_at && ltb n.id m.id)

unfoldable pub insert_newest : Message → List Message → List Message
insert_newest m [] = m ∷ []
insert_newest m (n ∷ ns) =
    let rest = insert_newest m ns in if is_newer n m then n ∷ rest else m ∷ n ∷ ns

unfoldable pub newest_first : List Message → List Message
unfolding insert_newest
newest_first [] = []
newest_first (m ∷ ms) = insert_newest m (newest_first ms)

abbrev pub is_visible : Uuid → Message → Bool
is_visible conversation_id m = m.conversation_id == conversation_id && is_none m.deleted_at

unfoldable pub visible_messages : Uuid → MessagingDb → List Message
unfolding newest_first
visible_messages conversation_id db = newest_first (select (is_visible conversation_id) db.messages)

pub record MessageListResponse : Type 0 where
  pub items : List MessageResponse
  pub next_cursor : Option String
  pub has_more : Bool

abbrev pub responses : MessagingDb → List Message → List MessageResponse
responses db = map (λ m. message_response m none false db)

-- The page at an offset, of the messages that the query finds; it reads one more than it shows.
unfoldable pub page : Codec → MessagingDb → List Message → ℕ → ℕ → MessageListResponse
page codec db ms limit offset =
    let found = take (suc limit) (drop offset ms) in
    let has_more = ltb limit (length found) in
    record {
      items = responses db (reverse (take limit found));
      next_cursor = if has_more then some (encode_cursor codec (offset + limit)) else none;
      has_more = has_more;
    }

abbrev pub or_refused : Result CursorError ℕ → Result MessagingError ℕ
or_refused (ok n) = ok n
or_refused (err e) = err cursor_refused

unfoldable pub list_messages :
    Codec
    → Uuid
    → Uuid
    → Option String
    → ℕ
    → MessagingDb
    → Result MessagingError MessageListResponse
unfolding participant_or_404 decode_cursor visible_messages page
list_messages codec user_id conversation_id cursor limit db =
    participant_or_404 conversation_id user_id db >>= λ row.
    or_refused (decode_cursor codec cursor) >>= λ offset.
    ok (page codec db (visible_messages conversation_id db) limit offset)

pub record ParticipantResponse : Type 0 where
  pub user_id : Uuid
  pub display_name : String
  pub joined_at : Time
  pub last_read_at : Option Time

pub record ConversationResponse : Type 0 where
  pub id : Uuid
  pub kind : ConversationKind
  pub restaurant_id : Option Uuid
  pub title : Option String
  pub participants : List ParticipantResponse
  pub last_message : Option MessageResponse
  pub last_message_at : Time
  pub unread_count : ℕ
  pub created_at : Time
  pub updated_at : Time

-- A participant with its user's row.
pub record Joined : Type 0 where
  pub participant : ConversationParticipant
  pub user : User

-- The join; a participant without a user is in none.
unfoldable pub join_users : MessagingDb → List ConversationParticipant → List Joined
join_users db [] = []
join_users db (p ∷ ps) = elim (find (λ (u : User). u.id == p.user_id) db.push.users) [
  | none ↦ join_users db ps
  | some u ↦ record { participant = p; user = u } ∷ join_users db ps
]

-- `order_by(joined_at, User.id)`
abbrev pub joined_before : Joined → Joined → Bool
joined_before p q =
    ltb p.participant.joined_at q.participant.joined_at
    || (p.participant.joined_at == q.participant.joined_at && ltb p.user.id q.user.id)

unfoldable pub insert_joined : Joined → List Joined → List Joined
insert_joined p [] = p ∷ []
insert_joined p (q ∷ qs) =
    let rest = insert_joined p qs in if joined_before q p then q ∷ rest else p ∷ q ∷ qs

unfoldable pub by_joining : List Joined → List Joined
unfolding insert_joined
by_joining [] = []
by_joining (p ∷ ps) = insert_joined p (by_joining ps)

unfoldable pub participant_rows : Uuid → MessagingDb → List Joined
unfolding join_users by_joining
participant_rows conversation_id db = by_joining (
    join_users db (
      select (λ (p : ConversationParticipant). p.conversation_id == conversation_id)
        db.push.participants))

abbrev pub participant_response : Joined → ParticipantResponse
participant_response j = record {
  user_id = j.participant.user_id;
  display_name = j.user.display_name;
  joined_at = j.participant.joined_at;
  last_read_at = j.participant.last_read_at;
}

-- When the user has read the conversation.
abbrev pub read_at : Option Joined → Option Time
read_at none = none
read_at (some j) = j.participant.last_read_at

abbrev pub is_after : Time → Option Time → Bool
is_after created none = true
is_after created (some read) = ltb read created

-- `unread_filters`
abbrev pub is_unread : Uuid → Uuid → Option Time → Message → Bool
is_unread conversation_id user_id read m =
    m.conversation_id == conversation_id
    && (not (m.sender_user_id == user_id) && (is_none m.deleted_at && is_after m.created_at read))

abbrev pub first_of {ℓ} : {A : Type ℓ} → List A → Option A
first_of [] = none
first_of (x ∷ xs) = some x

abbrev pub response_of : MessagingDb → Option Message → Option MessageResponse
response_of db none = none
response_of db (some m) = some (message_response m none false db)

-- `_conversation_response`
unfoldable pub conversation_response : Conversation → Uuid → MessagingDb → ConversationResponse
unfolding participant_rows visible_messages
conversation_response c user_id db =
    let rows = participant_rows c.id db in
    let read = read_at (find (λ (j : Joined). j.participant.user_id == user_id) rows) in
    record {
      id = c.id;
      kind = c.kind;
      restaurant_id = c.restaurant_id;
      title = c.title;
      participants = map participant_response rows;
      last_message = response_of db (first_of (visible_messages c.id db));
      last_message_at = c.last_message_at;
      unread_count = count_if (is_unread c.id user_id read) db.messages;
      created_at = c.created_at;
      updated_at = c.updated_at;
    }
