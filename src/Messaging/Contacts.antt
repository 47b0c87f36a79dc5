-- ===== src/Messaging/Contacts.antt =====
-- Whom `create_conversation` of app/services/messaging.py adds to a conversation with a restaurant.
use fofu_backend.Base.{
  append_nil, Mem, Option-cases, inl, inr, Returns-map, Uuid, Time, ◌≡◌, refl, sym, subst, true,
  false, not, ◌&&◌, Option, none, some, List, [], ◌++◌, map, arith, ltb, is_empty, any, length, All,
  All-map, All-map₂, if◌then◌else◌, if-split, ok, Returns, Returns-bind, Returns-raise_if,
  Returns-elim,
}
use fofu_backend.Push.Rows.{User, Scope, ConversationParticipant, member}
use fofu_backend.Cart.Rows.{Restaurant}
use fofu_backend.Messaging.Rows.{
  restaurant, Conversation, MessagingDb, guest_messaging_scope_forbidden, invalid_participants,
  restaurant_not_found, invalid_restaurant_participants, restaurant_has_no_contact,
}
use fofu_backend.Messaging.Send.{audit}
use fofu_backend.Messaging.Read.{ConversationResponse}
use fofu_backend.Messaging.Create.{
  ConversationCreate, is_out_of_scope, with_id, is_subset, requested_ids, restaurant_staff_ids,
  row_of, participants_for, is_inactive_id, find_existing_conversation, sorted, new_participant,
  insert_conversation, reuse_or_create, create_conversation,
}
use fofu_backend.Messaging.Staff.{
  All-member, All-sorted, All-with_id, All-added, all-All, any-All, IsStaff, IsContact,
  restaurant_staff_ids-IsStaff, IsActive, is_inactive_id-IsActive, IsInScope,
  is_out_of_scope-IsInScope, row_of-Mem,
}

module _ (user : User) (venue : Restaurant) (db : MessagingDb) where
  participants_for-contacts :
      (requested : List Uuid) (restaurant_id : Option Uuid)
      → row_of restaurant_id db ≡ some venue
      → Returns
          (All (IsContact db user venue))
          (participants_for user requested restaurant restaurant_id db)
  unfolding participants_for
  participants_for-contacts requested restaurant_id found = rw found (
      Returns-raise_if P (not venue.is_published && not (member user.id staff)) restaurant_not_found
        _
        λ shown.
          Returns-raise_if P (not (is_empty requested) && not (is_subset requested staff))
            invalid_restaurant_participants _
            λ subset.
              Returns-raise_if P
                (ltb (length (with_id user.id (if is_empty requested then staff else requested))) 2)
                restaurant_has_no_contact _
                λ enough. All-with_id (IsContact db user venue) user.id _ (inl refl) (
                  if-split P (is_empty requested)
                    (λ _. of_staff staff (restaurant_staff_ids-IsStaff db venue))
                    (λ some_asked. of_staff requested (
                      All-map (λ i. member i staff ≡ true) (IsStaff db venue) requested
                        (λ i.
                          All-member (IsStaff db venue) i staff
                            (restaurant_staff_ids-IsStaff db venue))
                        (all-All (λ i. member i staff) requested
                          (ground (arith, subset, some_asked)))))))
    where
      staff : List Uuid
      staff = restaurant_staff_ids venue db

      P : List Uuid → Type 0
      P = All (IsContact db user venue)

      of_staff : (ids : List Uuid) → All (IsStaff db venue) ids → P ids
      of_staff ids h = All-map (IsStaff db venue) (IsContact db user venue) ids (λ i e. inr e) h

-- Where there is an answer, the restaurant has been found.
participants_for-found :
    (user : User) (requested : List Uuid) (id : Option Uuid) (db : MessagingDb)
    → Returns
        (λ ids.
          (venue : Restaurant) × (row_of id db ≡ some venue) × All (IsContact db user venue) ids)
        (participants_for user requested restaurant id db)
unfolding participants_for
participants_for-found user requested id db = elim (Option-cases (row_of id db)) [
  | inl missing ↦ rw missing tt
  | inr (venue, found) ↦
      Returns-map (All (IsContact db user venue)) _
        (participants_for user requested restaurant id db) (λ ids h. (venue, found, h))
        (participants_for-contacts user venue db requested id found)
]

-- What an added participant is: a contact, with an active account.
abbrev pub IsAdmitted : MessagingDb → User → Restaurant → ConversationParticipant → Type 0
IsAdmitted db user venue p = IsContact db user venue p.user_id × IsActive db p.user_id

-- A conversation with a restaurant is created or found again. The restaurant is a row of the tables; a
-- guest who asks is in a session of its QR code; and participants are added behind those that were there,
-- or none. Each that is added has an active row among the users, and is the user who asks or has an
-- active membership of this restaurant, which is an owner's only for the owner of the restaurant.
pub create_conversation-contacts :
    (id : Uuid) (user : User) (payload : ConversationCreate) (scope : Scope)
    (scoped_restaurant_id : Option Uuid) (now created : Time) (db : MessagingDb)
    {r : ConversationResponse} {db' : MessagingDb}
    → payload.kind ≡ restaurant
    → create_conversation id user payload scope scoped_restaurant_id now created db ≡ ok (r, db')
    → (venue : Restaurant) × Mem venue db.restaurants
      × (payload.restaurant_id ≡ some venue.id)
      × IsInScope user scope scoped_restaurant_id venue
      × (added : List ConversationParticipant) × (db'.push.participants
          ≡ db.push.participants ++ added)
      × All (IsAdmitted db user venue) added
create_conversation-contacts id user payload scope scoped_restaurant_id now created db {r} {db'}
      kind answered =
    Returns-elim P (create_conversation id user payload scope scoped_restaurant_id now created db)
      (unfold create_conversation in
        Returns-raise_if P (is_out_of_scope user payload scope scoped_restaurant_id)
          guest_messaging_scope_forbidden _
          λ in_scope.
            Returns-bind Found P
              (participants_for user (requested_ids user payload) payload.kind payload.restaurant_id
                db)
              _
              (subst
                (λ k.
                  Returns Found
                    (participants_for user (requested_ids user payload) k payload.restaurant_id db))
                (sym kind)
                (participants_for-found user (requested_ids user payload) payload.restaurant_id db))
              (λ ids of_venue.
                Returns-raise_if P (any (is_inactive_id db) ids) invalid_participants _ λ active.
                  (let (venue, found, contacts) = of_venue in
                    let (there, named) = row_of-Mem payload.restaurant_id db venue found in
                    let (added, kept, admitted) =
                      reused venue ids
                        (All-map₂ (IsContact db user venue) (λ i. is_inactive_id db i ≡ false)
                          (Q venue) ids (λ i c a. (c, is_inactive_id-IsActive db i a)) contacts
                          (any-All (is_inactive_id db) ids active))
                        (find_existing_conversation user.id payload.kind payload.restaurant_id ids
                          db) in
                    (
                      venue,
                      there,
                      named,
                      is_out_of_scope-IsInScope user payload scope scoped_restaurant_id venue named
                          in_scope,
                      added,
                      kept,
                      admitted,
                    ))))
      answered
  where
    Found : List Uuid → Type 0
    Found ids =
        (venue : Restaurant) × (row_of payload.restaurant_id db ≡ some venue)
        × All (IsContact db user venue) ids

    Q : Restaurant → Uuid → Type 0
    Q venue i = IsContact db user venue i × IsActive db i

    P : ConversationResponse × MessagingDb → Type 0
    P r =
        (venue : Restaurant) × Mem venue db.restaurants
        × (payload.restaurant_id ≡ some venue.id)
        × IsInScope user scope scoped_restaurant_id venue
        × (added : List ConversationParticipant) × (r.1.push.participants
            ≡ db.push.participants ++ added)
        × All (IsAdmitted db user venue) added

    reused :
        (venue : Restaurant) (ids : List Uuid)
        → All (Q venue) ids
        → (o : Option Conversation)
        → (added : List ConversationParticipant) × ((reuse_or_create id user payload ids now created
              o db).1.push.participants
            ≡ db.push.participants ++ added)
          × All (IsAdmitted db user venue) added
    reused venue ids h (some c) =
        ([], unfold reuse_or_create in sym (append_nil db.push.participants), tt)
    reused venue ids h none = (
      map (new_participant id user.id now created) (sorted ids),
      unfold reuse_or_create insert_conversation audit in refl,
      All-added (Q venue) id user.id now created (sorted ids) (All-sorted (Q venue) ids h),
    )
