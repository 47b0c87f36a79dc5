-- ===== src/Messaging/Pages.antt =====
-- Reading a conversation page by page by the cursors of app/services/messaging.py, on tables that do not
-- change between the pages. A cursor is an offset from the newest message: a message that is sent between
-- two pages shifts the others, so that the page after it repeats some.
use fofu_backend.Base.{
  drop, reverse, reverse_split, take-take, take_all, length-take_more, length-drop, drop-drop, ℕ,
  zero, suc, Uuid, ◌+◌, ◌-◌, ◌≡◌, ◌≤◌, ◌<◌, refl, sym, ap, ◌∙◌, inl, inr, String, true, false,
  Option, none, some, List, [], ◌∷◌, ◌++◌, arith, ltb, length, take, if◌then◌else◌, Bool-cases,
  Result, ok, err,
}
use fofu_backend.Utils.Cursor.{
  Codec, max_cursor_offset, encode_cursor, decode_cursor, invalid_cursor,
}
use fofu_backend.Utils.Pagination.{CodecLaws, decode_cursor-encode_cursor}
use fofu_backend.Push.Rows.{ConversationParticipant}
use fofu_backend.Push.Enqueue.{Message}
use fofu_backend.Messaging.Rows.{
  Conversation, MessagingDb, MessagingError, MessageResponse, message_response, participant_or_404,
}
use fofu_backend.Messaging.Read.{
  MessageListResponse, responses, page, visible_messages, list_messages,
}

responses-append :
    (db : MessagingDb) (ms ns : List Message)
    → responses db (ms ++ ns) ≡ responses db ms ++ responses db ns
responses-append db [] ns = refl
responses-append db (m ∷ ms) ns =
    ap (λ rs. message_response m none false db ∷ rs) (responses-append db ms ns)

module _ (codec : Codec) (user_id conversation_id : Uuid) (limit : ℕ) (db : MessagingDb) where
  -- A page and those of its next cursors, the older messages in front; none where a call is refused.
  abbrev behind :
      MessageListResponse → Option (List MessageResponse) → Option (List MessageResponse)
  behind p none = if p.has_more then none else some p.items
  behind p (some older) = some (if p.has_more then older ++ p.items else p.items)

  -- A client that reads a page, and goes on with its next cursor while there is more. It is no code of the
  -- repository but the use that the cursors are made for; each page is read from the same tables.
  unfoldable pub read_all : ℕ → Option String → Option (List MessageResponse)
  read_all zero cursor = none
  read_all (suc n) cursor = elim (list_messages codec user_id conversation_id cursor limit db) [
    | err e ↦ none
    | ok p ↦ behind p (read_all n p.next_cursor)
  ]

  page_read :
      (offset : ℕ) (cursor : Option String) {row : Conversation × ConversationParticipant}
      → participant_or_404 conversation_id user_id db ≡ ok row
      → decode_cursor codec cursor ≡ ok offset
      → list_messages codec user_id conversation_id cursor limit db
        ≡ ok (page codec db (visible_messages conversation_id db) limit offset)
  unfolding list_messages
  page_read offset cursor takes_part decoded = rw (takes_part, decoded) refl

  page_next :
      (ms : List Message) (offset : ℕ)
      → ltb limit (length (take (suc limit) (drop offset ms))) ≡ true
      → (page codec db ms limit offset).next_cursor ≡ some (encode_cursor codec (offset + limit))
  unfolding page
  page_next ms offset more = rw more refl

  -- The messages behind a page, and those of the page.
  page_join :
      (ms : List Message) (offset : ℕ)
      → responses db (reverse (drop (offset + limit) ms)) ++ (page codec db ms limit offset).items
        ≡ responses db (reverse (drop offset ms))
  unfolding page
  page_join ms offset =
      rw (drop-drop offset limit (offset + limit) ms refl, take-take limit (drop offset ms))
        (sym (
            responses-append db (reverse (drop limit (drop offset ms)))
              (reverse (take limit (drop offset ms))))
          ∙ ap (responses db) (reverse_split limit (drop offset ms)))

  in_bounds :
      (offset : ℕ)
      → offset ≤ max_cursor_offset
      → (if ltb max_cursor_offset offset then err invalid_cursor else ok offset) ≡ ok offset
  in_bounds offset le = ground (arith, le)

  step :
      (n : ℕ) (cursor : Option String) (p : MessageListResponse)
      → list_messages codec user_id conversation_id cursor limit db ≡ ok p
      → read_all (suc n) cursor ≡ behind p (read_all n p.next_cursor)
  unfolding read_all
  step n cursor p e =
      ap
        (λ (r : Result MessagingError MessageListResponse). elim r [
          | err e ↦ none
          | ok p ↦ behind p (read_all n p.next_cursor)
        ])
        e

  behind_more :
      (p : MessageListResponse) (o : Option (List MessageResponse)) (older : List MessageResponse)
      → p.has_more ≡ true
      → o ≡ some older
      → behind p o ≡ some (older ++ p.items)
  behind_more p o older more e = rw (e, more) refl

  behind_last :
      (p : MessageListResponse) (o : Option (List MessageResponse))
      → p.has_more ≡ false
      → behind p o ≡ some p.items
  behind_last p none last = rw last refl
  behind_last p (some older) last = rw last refl

  module _ (laws : CodecLaws codec) {row : Conversation × ConversationParticipant}
      (takes_part : participant_or_404 conversation_id user_id db ≡ ok row) (positive : 1 ≤ limit)
      (few : length (visible_messages conversation_id db) ≤ max_cursor_offset) where
    abbrev ms : List Message
    ms = visible_messages conversation_id db

    read_on :
        (n offset : ℕ) (cursor : Option String)
        → decode_cursor codec cursor ≡ ok offset
        → length ms - offset < n
        → read_all n cursor ≡ some (responses db (reverse (drop offset ms)))
    read_on zero offset cursor decoded enough = absurd (omega arith)
    read_on (suc n) offset cursor decoded enough =
        let d = drop offset ms in
        let p = page codec db ms limit offset in
        step n cursor p (page_read offset cursor takes_part decoded)
        ∙ elim (Bool-cases (ltb limit (length (take (suc limit) (drop offset ms))))) [
          | inl more ↦
              let long = length-take_more limit d more in
              let within = length-drop offset ms in
              behind_more p (read_all n p.next_cursor)
                (responses db (reverse (drop (offset + limit) ms))) (unfold page in more)
                (ap (read_all n) (page_next ms offset more)
                  ∙ read_on n (offset + limit) (some (encode_cursor codec (offset + limit)))
                      (decode_cursor-encode_cursor codec laws (offset + limit)
                        ∙ in_bounds (offset + limit) (omega (arith, long, within)))
                      (omega (arith, long, within)))
              ∙ ap some (page_join ms offset)
          | inr last ↦
              behind_last p (read_all n p.next_cursor) (unfold page in last)
              ∙ unfold page in
                ap (λ ns. some (responses db (reverse ns)))
                  (take-take limit d ∙ take_all limit d last)
        ]

    -- A client of a user who takes part in the conversation goes on from the first page with each next
    -- cursor, while nobody changes the tables: no message is sent, edited or deleted between the pages.
    -- It comes to an end, and has then read every message of the conversation that is not deleted, once,
    -- the oldest first; it needs no more pages than there are messages, and one. A page has room for one
    -- message at least, the conversation has a million messages at most that are not deleted, and base64
    -- and `int` keep what they promise.
    pub read_all_complete :
        read_all (suc (length (visible_messages conversation_id db))) none
        ≡ some (responses db (reverse (visible_messages conversation_id db)))
    read_all_complete =
        read_on (suc (length ms)) 0 none (unfold decode_cursor in refl) (omega arith)
