-- ===== src/Messaging/Inbox.antt =====
-- app/services/messaging.py: `list_conversations`. The database's pattern match (ILIKE with the escape
-- character `\`) and the split of a text at white space are parameters.
use fofu_backend.Base.{
  drop, ℕ, suc, Uuid, ◌+◌, String, Bool, true, false, not, ◌&&◌, ◌||◌, Option, none, some, List, [],
  ◌∷◌, map, ◌==◌, ltb, any, select, length, take, if◌then◌else◌, Result, ok, ◌>>=◌,
}
use fofu_backend.Utils.Text.{◌<>◌, replace}
use fofu_backend.Utils.Locale.{is_blank}
use fofu_backend.Utils.Cursor.{Codec, encode_cursor, decode_cursor}
use fofu_backend.Push.Rows.{User, ConversationParticipant}
use fofu_backend.Push.Enqueue.{Message}
use fofu_backend.Cart.Rows.{Restaurant}
use fofu_backend.Messaging.Rows.{
  direct, restaurant, Conversation, MessagingDb, MessagingError, is_participant,
}
use fofu_backend.Messaging.Read.{
  first_of, or_refused, visible_messages, is_unread, ConversationResponse, conversation_response,
}

-- The filters that the schema lets through.
pub data InboxFilter : Type 0 where
  all_conversations unread restaurants : InboxFilter

-- `match` tells whether a text has a pattern; `squeeze` is `" ".join(text.split())`.
pub record Search : Type 0 where
  pub match : String → String → Bool
  pub squeeze : String → String

pub record ConversationListResponse : Type 0 where
  pub items : List ConversationResponse
  pub next_cursor : Option String
  pub has_more : Bool

-- `normalized_query`
abbrev pub query_text : Search → Option String → String
query_text search none = search.squeeze ""
query_text search (some q) = search.squeeze q

-- `pattern`: the characters that a pattern would read are escaped.
unfoldable pub pattern_of : String → String
unfolding replace
pattern_of q = "%" <> replace b'_' "\\_" (replace b'%' "\\%" (replace b'\\' "\\\\" q)) <> "%"

abbrev pub matches_text : Search → String → Option String → Bool
matches_text search pattern none = false
matches_text search pattern (some t) = search.match t pattern

-- Another participant's name has the pattern.
abbrev pub has_name : Search → String → MessagingDb → Uuid → Bool
has_name search pattern db i =
    any (λ (u : User). u.id == i && search.match u.display_name pattern) db.push.users

unfoldable pub participant_match : Search → String → MessagingDb → Uuid → Conversation → Bool
participant_match search pattern db user_id c =
    any
      (λ (p : ConversationParticipant).
        p.conversation_id == c.id
        && (not (p.user_id == user_id) && has_name search pattern db p.user_id))
      db.push.participants

abbrev pub is_row_of : Option Uuid → Restaurant → Bool
is_row_of none r = false
is_row_of (some i) r = r.id == i

unfoldable pub restaurant_match : Search → String → MessagingDb → Conversation → Bool
restaurant_match search pattern db c =
    any
      (λ (r : Restaurant).
        is_row_of c.restaurant_id r
        && (search.match r.name_en pattern || matches_text search pattern r.name_ko))
      db.restaurants

abbrev pub body_of : Option Message → Option String
body_of none = none
body_of (some m) = some m.body

-- The four ways in which a conversation has the pattern.
unfoldable pub matches_query : Search → String → MessagingDb → Uuid → Conversation → Bool
unfolding participant_match restaurant_match visible_messages
matches_query search pattern db user_id c =
    matches_text search pattern c.title
    || (participant_match search pattern db user_id c
        || (restaurant_match search pattern db c
            || matches_text search pattern (body_of (first_of (visible_messages c.id db)))))

-- The condition of the filter, for a participant's row.
unfoldable pub passes_filter :
    InboxFilter → MessagingDb → Conversation → ConversationParticipant → Bool
passes_filter all_conversations db c p = true
passes_filter unread db c p = any (is_unread c.id p.user_id p.last_read_at) db.messages
passes_filter restaurants db c p = elim c.kind [ restaurant ↦ true | direct ↦ false ]

-- The user's row of the conversation passes the filter.
unfoldable pub is_listed : InboxFilter → MessagingDb → Uuid → Conversation → Bool
unfolding passes_filter
is_listed filter db user_id c =
    any
      (λ (p : ConversationParticipant).
        is_participant c.id user_id p && passes_filter filter db c p)
      db.push.participants

unfoldable pub is_found : Search → InboxFilter → String → MessagingDb → Uuid → Conversation → Bool
unfolding is_listed matches_query pattern_of
is_found search filter query db user_id c =
    is_listed filter db user_id c
    && (is_blank query || matches_query search (pattern_of query) db user_id c)

-- `order_by(last_message_at.desc(), id.desc())`
abbrev pub is_more_recent : Conversation → Conversation → Bool
is_more_recent c d =
    ltb d.last_message_at c.last_message_at
    || (c.last_message_at == d.last_message_at && ltb d.id c.id)

unfoldable pub insert_recent : Conversation → List Conversation → List Conversation
insert_recent c [] = c ∷ []
insert_recent c (d ∷ ds) =
    let rest = insert_recent c ds in if is_more_recent d c then d ∷ rest else c ∷ d ∷ ds

unfoldable pub recent_first : List Conversation → List Conversation
unfolding insert_recent
recent_first [] = []
recent_first (c ∷ cs) = insert_recent c (recent_first cs)

unfoldable pub found_conversations :
    Search → InboxFilter → Option String → MessagingDb → Uuid → List Conversation
unfolding is_found recent_first
found_conversations search filter query db user_id =
    recent_first
      (select (is_found search filter (query_text search query) db user_id) db.conversations)

unfoldable pub inbox_page :
    Codec → MessagingDb → Uuid → List Conversation → ℕ → ℕ → ConversationListResponse
unfolding conversation_response
inbox_page codec db user_id cs limit offset =
    let found = take (suc limit) (drop offset cs) in
    let has_more = ltb limit (length found) in
    record {
      items = map (λ c. conversation_response c user_id db) (take limit found);
      next_cursor = if has_more then some (encode_cursor codec (offset + limit)) else none;
      has_more = has_more;
    }

unfoldable pub list_conversations :
    Codec
    → Search
    → Uuid
    → Option String
    → ℕ
    → InboxFilter
    → Option String
    → MessagingDb
    → Result MessagingError ConversationListResponse
unfolding decode_cursor found_conversations inbox_page
list_conversations codec search user_id cursor limit filter query db =
    or_refused (decode_cursor codec cursor) >>= λ offset.
    ok (
      inbox_page codec db user_id (found_conversations search filter query db user_id) limit offset)
