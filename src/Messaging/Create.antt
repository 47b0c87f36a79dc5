-- ===== src/Messaging/Create.antt =====
-- app/services/messaging.py: `create_conversation`. A set of ids is a list without duplicates.
use fofu_backend.Base.{
  Uuid, Time, String, Bool, true, false, not, ◌&&◌, ◌||◌, Option, none, some, List, [], ◌∷◌, ◌++◌,
  map, ◌==◌, ltb, str_eq, is_none, is_empty, find, any, all, select, length, if◌then◌else◌, Result,
  ok, raise_if, or_raise, ◌>>=◌, ◌>>◌,
}
use fofu_backend.Push.Rows.{User, Scope, qr_guest, ConversationParticipant, member}
use fofu_backend.Cart.Rows.{Restaurant}
use fofu_backend.Messaging.Rows.{
  ConversationKind, direct, restaurant, Conversation, RestaurantMembership, created_conversation,
  MessagingDb, MessagingError, guest_messaging_scope_forbidden, invalid_participants,
  restaurant_not_found, invalid_restaurant_participants, restaurant_has_no_contact, is_participant,
}
use fofu_backend.Messaging.Send.{same_id, audit}
use fofu_backend.Messaging.Read.{ConversationResponse, conversation_response}

pub record ConversationCreate : Type 0 where
  pub kind : ConversationKind
  pub participant_user_ids : List Uuid
  pub restaurant_id : Option Uuid
  pub title : Option String

abbrev pub is_direct : ConversationKind → Bool
is_direct direct = true
is_direct restaurant = false

abbrev pub same_conversation_kind : ConversationKind → ConversationKind → Bool
same_conversation_kind direct k = is_direct k
same_conversation_kind restaurant k = not (is_direct k)

abbrev pub is_qr_guest : Scope → Bool
is_qr_guest qr_guest = true
is_qr_guest _ = false

-- The guests whom the first condition refuses.
unfoldable pub is_out_of_scope : User → ConversationCreate → Scope → Option Uuid → Bool
is_out_of_scope user payload scope scoped_restaurant_id =
    user.is_guest
    && (not (is_qr_guest scope)
        || (is_direct payload.kind
            || (is_none scoped_restaurant_id
                || not (same_id payload.restaurant_id scoped_restaurant_id))))

unfoldable pub to_set : List Uuid → List Uuid
to_set [] = []
to_set (i ∷ ids) = let rest = to_set ids in if member i rest then rest else i ∷ rest

-- `a | {i}`
abbrev pub with_id : Uuid → List Uuid → List Uuid
with_id i ids = if member i ids then ids else i ∷ ids

abbrev pub is_subset : List Uuid → List Uuid → Bool
is_subset a b = all (λ i. member i b) a

abbrev pub same_set : List Uuid → List Uuid → Bool
same_set a b = is_subset a b && is_subset b a

-- `requested_ids`
unfoldable pub requested_ids : User → ConversationCreate → List Uuid
unfolding to_set
requested_ids user payload = select (λ i. not (i == user.id)) (to_set payload.participant_user_ids)

-- `_restaurant_staff_ids`
abbrev pub is_staff : Restaurant → RestaurantMembership → Bool
is_staff r m =
    m.restaurant_id == r.id
    && (str_eq m.status "active"
        && (not (str_eq m.role "owner") || same_id (some m.user_id) r.owner_user_id))

unfoldable pub restaurant_staff_ids : Restaurant → MessagingDb → List Uuid
unfolding to_set
restaurant_staff_ids r db = to_set (map (λ m. m.user_id) (select (is_staff r) db.memberships))

abbrev pub row_of : Option Uuid → MessagingDb → Option Restaurant
row_of none db = none
row_of (some i) db = find (λ (r : Restaurant). r.id == i) db.restaurants

-- The participants of a conversation of each kind.
unfoldable pub participants_for :
    User
    → List Uuid
    → ConversationKind
    → Option Uuid
    → MessagingDb
    → Result MessagingError (List Uuid)
unfolding restaurant_staff_ids
participants_for user requested direct restaurant_id db =
    raise_if (not (length requested == 1)) invalid_participants >> ok (with_id user.id requested)
participants_for user requested restaurant restaurant_id db =
    or_raise (row_of restaurant_id db) restaurant_not_found >>= λ r.
    let staff = restaurant_staff_ids r db in
    let participants = with_id user.id (if is_empty requested then staff else requested) in
    raise_if (not r.is_published && not (member user.id staff)) restaurant_not_found
    >> (raise_if (not (is_empty requested) && not (is_subset requested staff))
          invalid_restaurant_participants
        >> (raise_if (ltb (length participants) 2) restaurant_has_no_contact >> ok participants))

-- `active_ids != participant_ids`
unfoldable pub is_inactive_id : MessagingDb → Uuid → Bool
is_inactive_id db i = not (any (λ (u : User). u.id == i && u.is_active) db.push.users)

-- `_participant_ids`
unfoldable pub participant_ids : Uuid → MessagingDb → List Uuid
participant_ids conversation_id db =
    map (λ p. p.user_id)
      (select (λ (p : ConversationParticipant). p.conversation_id == conversation_id)
        db.push.participants)

-- The conversations of the query, and the one that is looked for among them.
unfoldable pub is_candidate :
    MessagingDb → Uuid → ConversationKind → Option Uuid → List Uuid → Conversation → Bool
unfolding participant_ids
is_candidate db user_id kind restaurant_id ids c =
    any (is_participant c.id user_id) db.push.participants
    && (same_conversation_kind c.kind kind
        && (same_id c.restaurant_id restaurant_id && same_set (participant_ids c.id db) ids))

-- `order_by(created_at.desc())` and the first: of what is found, the one created last.
abbrev pub later_created : Conversation → Option Conversation → Conversation
later_created c none = c
later_created c (some d) = if ltb c.created_at d.created_at then d else c

unfoldable pub latest_created : List Conversation → Option Conversation
latest_created [] = none
latest_created (c ∷ cs) = some (later_created c (latest_created cs))

unfoldable pub find_existing_conversation :
    Uuid → ConversationKind → Option Uuid → List Uuid → MessagingDb → Option Conversation
unfolding is_candidate latest_created
find_existing_conversation user_id kind restaurant_id ids db =
    latest_created (select (is_candidate db user_id kind restaurant_id ids) db.conversations)

-- `sorted(participant_ids)`
unfoldable pub insert_id : Uuid → List Uuid → List Uuid
insert_id i [] = i ∷ []
insert_id i (j ∷ js) = let rest = insert_id i js in if ltb j i then j ∷ rest else i ∷ j ∷ js

unfoldable pub sorted : List Uuid → List Uuid
unfolding insert_id
sorted [] = []
sorted (i ∷ is) = insert_id i (sorted is)

abbrev pub new_participant : Uuid → Uuid → Time → Time → Uuid → ConversationParticipant
new_participant conversation_id user_id now joined i = record {
  conversation_id = conversation_id;
  user_id = i;
  last_read_at = if i == user_id then some now else none;
  joined_at = joined;
}

abbrev pub new_conversation : Uuid → ConversationCreate → Time → Time → Conversation
new_conversation id payload now created = record {
  id = id;
  kind = payload.kind;
  restaurant_id = payload.restaurant_id;
  title = payload.title;
  last_message_at = now;
  created_at = created;
  updated_at = created;
}

-- The new row, with its participants and the audit event; `created` is the clock of the defaults.
unfoldable pub insert_conversation :
    Uuid → User → ConversationCreate → List Uuid → Time → Time → MessagingDb → MessagingDb
unfolding sorted audit
insert_conversation id user payload ids now created db =
    audit user.id "conversation.created" id
      (created_conversation payload.kind payload.restaurant_id (length ids))
      (record db {
        conversations = db.conversations ++ new_conversation id payload now created ∷ [];
        push = record db.push {
          participants =
              db.push.participants ++ map (new_participant id user.id now created) (sorted ids);
        };
      })

-- The last part: the conversation that was found, or a new one.
unfoldable pub reuse_or_create :
    Uuid
    → User
    → ConversationCreate
    → List Uuid
    → Time
    → Time
    → Option Conversation
    → MessagingDb
    → ConversationResponse × MessagingDb
unfolding insert_conversation conversation_response
reuse_or_create id user payload ids now created (some c) db =
    (conversation_response c user.id db, db)
reuse_or_create id user payload ids now created none db =
    let db' = insert_conversation id user payload ids now created db in
    (conversation_response (new_conversation id payload now created) user.id db', db')

-- `create_conversation`, with the id of the new row and two readings of the clock.
unfoldable pub create_conversation :
    Uuid
    → User
    → ConversationCreate
    → Scope
    → Option Uuid
    → Time
    → Time
    → MessagingDb
    → Result MessagingError (ConversationResponse × MessagingDb)
unfolding is_out_of_scope requested_ids participants_for is_inactive_id find_existing_conversation
    reuse_or_create
create_conversation id user payload scope scoped_restaurant_id now created db =
    raise_if (is_out_of_scope user payload scope scoped_restaurant_id)
      guest_messaging_scope_forbidden
    >> (participants_for user (requested_ids user payload) payload.kind payload.restaurant_id db
        >>= λ ids.
            raise_if (any (is_inactive_id db) ids) invalid_participants
            >> ok (
                reuse_or_create id user payload ids now created
                  (find_existing_conversation user.id payload.kind payload.restaurant_id ids db)
                  db))
