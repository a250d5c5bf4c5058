-- ===== src/Logs/Storing.antt =====
-- What the log writer stores.
use buildbeaver.Base.{
  leb, if◌then◌else◌, Bool-cases, length, ℕ, ◌+◌, ◌≡◌, refl, sym, ap, subst, ◌∙◌, inl, inr, Bool,
  true, false, List, [], ◌∷◌, ◌++◌, arith,
}
use buildbeaver.Models.{Text}
use mathlib.Core.List.{append_assoc, append-nil}
use buildbeaver.Logs.Writer.{
  EncodedEntry, Writer, Blob, new_writer, flush_chunk, buffer_entry, write_encoded, Message,
  entry_in, flush_request, chunk_expired, stopped, flush_buffered, handle_open, handle_message,
  handle_messages, sent_by, sent, stored,
}

-- Nothing that reached an open writer is lost or stored twice.
abbrev Keeps : Writer → List Text → Writer × List Blob → Type 0
Keeps w new (w', put) = w'.write_err ≡ false → (w.entries ++ new) ≡ (stored put ++ w'.entries)

stored-append : (xs ys : List Blob) → stored (xs ++ ys) ≡ (stored xs ++ stored ys)
unfolding stored
stored-append [] ys = refl
stored-append (x ∷ xs) ys =
    ap (λ u. x.contents ++ u) (stored-append xs ys)
    ∙ sym (append_assoc x.contents (stored xs) (stored ys))

flush_chunk-Keeps : (ok : Bool) (w : Writer) → Keeps w [] (flush_chunk ok w)
unfolding flush_chunk stored
flush_chunk-Keeps true w e = sym (append-nil (w.entries ++ []))
flush_chunk-Keeps false w e = cc

flush_buffered-Keeps : (ok : Bool) (w : Writer) → Keeps w [] (flush_buffered ok w)
unfolding flush_buffered stored
flush_buffered-Keeps ok w = elim (Bool-cases (leb 1 (length w.entries))) [
  | inl t ↦ rw t (flush_chunk-Keeps ok w)
  | inr f ↦ rw f λ e. append-nil w.entries
]

write_encoded-Keeps :
    (n : ℕ) (ok : Bool) (x : EncodedEntry) (w : Writer)
    → Keeps w (x.raw ∷ []) (write_encoded n ok x w)
unfolding write_encoded buffer_entry stored
write_encoded-Keeps n ok x w = elim (Bool-cases (leb n (w.size + length x.raw))) [
  | inl t ↦ rw t λ e. sym (append-nil _) ∙ flush_chunk-Keeps ok (buffer_entry x w) e
  | inr f ↦ rw f λ e. refl
]

handle_open-Keeps : (n : ℕ) (m : Message) (w : Writer) → Keeps w (sent_by m) (handle_open n m w)
unfolding handle_open sent_by
handle_open-Keeps n (entry_in x ok) w = write_encoded-Keeps n ok x w
handle_open-Keeps n (flush_request ok) w = flush_buffered-Keeps ok w
handle_open-Keeps n (chunk_expired ok) w = flush_buffered-Keeps ok w
handle_open-Keeps n (stopped ok) w = flush_buffered-Keeps ok w

-- An error stays.
handle_message-was_open :
    (n : ℕ) (m : Message) (w : Writer)
    → (handle_message n m w).0.write_err ≡ false
    → w.write_err ≡ false
unfolding handle_message
handle_message-was_open n m w e = at_error w.write_err (handle_open n m w) refl e
  where
    at_error :
        (b : Bool) (p : Writer × List Blob)
        → w.write_err ≡ b
        → (if b then (w, []) else p).0.write_err ≡ false
        → w.write_err ≡ false
    at_error true p q e = e
    at_error false p q e = q

-- The messages to a writer without an error.
handle_message-handle_open :
    (n : ℕ) (m : Message) (w : Writer)
    → w.write_err ≡ false
    → handle_message n m w ≡ handle_open n m w
unfolding handle_message
handle_message-handle_open n m w f = ap (λ b. if b then (w, []) else handle_open n m w) f

handle_message-Keeps :
    (n : ℕ) (m : Message) (w : Writer) → Keeps w (sent_by m) (handle_message n m w)
handle_message-Keeps n m w e =
    let f = handle_message-was_open n m w e in
    subst (Keeps w (sent_by m)) (sym (handle_message-handle_open n m w f)) (handle_open-Keeps n m w)
      e

handle_messages-was_open :
    (n : ℕ) (ms : List Message) (w : Writer)
    → (handle_messages n ms w).0.write_err ≡ false
    → w.write_err ≡ false
unfolding handle_messages
handle_messages-was_open n [] w e = e
handle_messages-was_open n (m ∷ ms) w e =
    handle_message-was_open n m w (handle_messages-was_open n ms (handle_message n m w).0 e)

handle_messages-Keeps :
    (n : ℕ) (ms : List Message) (w : Writer) → Keeps w (sent ms) (handle_messages n ms w)
unfolding handle_messages sent stored
handle_messages-Keeps n [] w e = append-nil w.entries
handle_messages-Keeps n (m ∷ ms) w e =
    let (w₁, put₁) = handle_message n m w in
    let (w₂, put₂) = handle_messages n ms w₁ in
    sym (append_assoc w.entries (sent_by m) (sent ms))
    ∙ ap (λ u. u ++ sent ms) (handle_message-Keeps n m w (handle_messages-was_open n ms w₁ e))
    ∙ append_assoc (stored put₁) w₁.entries (sent ms)
    ∙ ap (λ u. stored put₁ ++ u) (handle_messages-Keeps n ms w₁ e)
    ∙ sym (append_assoc (stored put₁) (stored put₂) w₂.entries)
    ∙ ap (λ u. u ++ w₂.entries) (sym (stored-append put₁ put₂))

none_buffered : (es : List Text) → leb 1 (length es) ≡ false → es ≡ []
none_buffered [] e = refl
none_buffered (x ∷ es) e = ground arith

flush_buffered-empty : (ok : Bool) (w : Writer) → (flush_buffered ok w).0.entries ≡ []
unfolding flush_buffered flush_chunk
flush_buffered-empty ok w = elim (Bool-cases (leb 1 (length w.entries))) [
  | inl t ↦ rw t refl
  | inr f ↦ rw f (none_buffered w.entries f)
]

flush_request-empty :
    (n : ℕ) (ok : Bool) (w : Writer)
    → w.write_err ≡ false
    → (handle_message n (flush_request ok) w).0.entries ≡ []
unfolding handle_open
flush_request-empty n ok w f =
    ap (λ (p : Writer × List Blob). p.0.entries)
      (handle_message-handle_open n (flush_request ok) w f)
    ∙ flush_buffered-empty ok w

-- If a request to flush a new writer, after any messages, is answered without an error, the chunks that
-- were put hold exactly the entries that were sent, in their order.
pub flush_request-stored :
    (chunk_size : ℕ) (ms : List Message) (ok : Bool)
    → (handle_message chunk_size
        (flush_request ok)
        (handle_messages chunk_size ms new_writer).0).0.write_err
      ≡ false
    → let (w, put) = handle_messages chunk_size ms new_writer in
      stored (put ++ (handle_message chunk_size (flush_request ok) w).1) ≡ sent ms
unfolding sent_by
flush_request-stored chunk_size ms ok e =
    let (w, put) = handle_messages chunk_size ms new_writer in
    let (w', put') = handle_message chunk_size (flush_request ok) w in
    let f = handle_message-was_open chunk_size (flush_request ok) w e in
    stored-append put put'
    ∙ ap (λ u. stored put ++ u)
        (sym (append-nil (stored put'))
          ∙ ap (λ u. stored put' ++ u) (sym (flush_request-empty chunk_size ok w f))
          ∙ sym (handle_message-Keeps chunk_size (flush_request ok) w e)
          ∙ append-nil w.entries)
    ∙ sym (handle_messages-Keeps chunk_size ms new_writer f)
