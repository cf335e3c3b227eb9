-- ===== src/Attachments/Uploads.antt =====
-- The operations of `AttachmentRepository` in apps/gateway/src/attachmentRepository.ts. What the
-- `CHECK` on an upload's state asks of a row is a theorem of `Quota`, not a test here.
use family_ai_platform.Common.{
  ℕ, ◌+◌, String, Bool, true, false, not, ◌&&◌, ◌||◌, Option, none, some, List, [], ◌∷◌, ◌++◌, map,
  Outcome, ok, Op, pure, gets, modify, require, refuse_if, transaction, ◌>>=◌, ◌>>◌,
  constraint_failed, validation, conflict, ◌==◌, eqb, leb, ltb, is_some, is_text, if◌then◌else◌,
  length, select, first, exists_in, all_in, changes, update, order_by,
}
use family_ai_platform.SyncContract.Formats.{codes, in_range}
use family_ai_platform.Outbox.{text_before}
use family_ai_platform.Attachments.{
  uploading, ready, attached, expired, deleted, is_state, is_live, is_stored, AttachmentRow,
  ChunkRow, AttachmentDb, attachment_error, attachment_not_found, attachment_not_ready,
  attachment_by_ref, owned, family_member, family_reserved_bytes, max_file_bytes, upload_lifetime,
}
use family_ai_platform.Attachments.Names.{normalize_attachment_name}

pub record Reservation : Type 0 where
  pub family_ref : String
  pub person_ref : String
  pub file_name : String
  pub declared_media_type : String
  pub size_bytes : ℕ

-- `CHECK (length(…) BETWEEN 3 AND 127)`.
abbrev pub media_type_fits : String → Bool
media_type_fits s = leb 3 (length (codes s)) && leb (length (codes s)) 127

-- `length(sha256) = 64 AND sha256 NOT GLOB '*[^0-9a-f]*'`.
abbrev hex_digit : ℕ → Bool
hex_digit c = in_range b'0' b'9' c || in_range b'a' b'f' c

abbrev pub sha256_fits : String → Bool
sha256_fits s = eqb (length (codes s)) 64 && all_in hex_digit (codes s)

abbrev pub reserved_row : Reservation → String → String → ℕ → AttachmentRow
reserved_row i name ref now = record {
  attachment_ref = ref;
  family_ref = i.family_ref;
  owner_person_ref = i.person_ref;
  file_name = name;
  declared_media_type = i.declared_media_type;
  detected_media_type = none;
  size_bytes = i.size_bytes;
  reserved_bytes = i.size_bytes;
  sha256 = none;
  storage_key = none;
  state = uploading;
  created_at = now;
  expires_at = some (now + upload_lifetime);
  completed_at = none;
  attached_at = none;
}

-- The insertion of `reserveUpload`, with its primary key and the check on its declared type.
abbrev pub insert_attachment : AttachmentRow → Op AttachmentDb AttachmentRow
insert_attachment r = do
  taken ← gets (λ db. is_some (attachment_by_ref db r.attachment_ref))
  refuse_if (taken || not (media_type_fits r.declared_media_type)) constraint_failed
  modify (λ db. record db { attachments = db.attachments ++ r ∷ [] })
  pure r

abbrev pub lift : {S A : Type 0} → Outcome A → Op S A
lift o s = (o, s)

-- `reserveUpload`; the reference is drawn. A size is a natural number here.
unfoldable pub reserve_upload :
    (String → String) → ℕ → Reservation → String → ℕ → Op AttachmentDb AttachmentRow
unfolding normalize_attachment_name
reserve_upload normal quota i ref now = do
  refuse_if (ltb i.size_bytes 1 || ltb max_file_bytes i.size_bytes)
      (attachment_error "ATTACHMENT_SIZE_INVALID" 400 validation)
  name ← lift (normalize_attachment_name normal i.file_name)
  transaction (do
    member ← gets (λ db. family_member db i.family_ref i.person_ref)
    refuse_if (not member) attachment_not_found
    held ← gets (λ db. family_reserved_bytes db i.family_ref)
    refuse_if (ltb quota (held + i.size_bytes))
        (attachment_error "ATTACHMENT_QUOTA_EXCEEDED" 409 conflict)
    insert_attachment (reserved_row i name ref now))

pub record Owner : Type 0 where
  pub family_ref : String
  pub person_ref : String
  pub attachment_ref : String

-- `requireOwned`.
abbrev pub require_owned : Owner → Op AttachmentDb AttachmentRow
require_owned o = do
  found ← gets (λ db. owned db o.family_ref o.person_ref o.attachment_ref)
  require found attachment_not_found

abbrev pub lapsed_at : ℕ → Option ℕ → Bool
lapsed_at now none = true
lapsed_at now (some t) = leb t now

-- `requireUploading`.
abbrev pub require_uploading : Owner → ℕ → Op AttachmentDb AttachmentRow
require_uploading o now = do
  r ← require_owned o
  refuse_if (not (is_state r.state uploading) || lapsed_at now r.expires_at)
      (attachment_error "ATTACHMENT_UPLOAD_EXPIRED" 409 conflict)
  pure r

pub record Chunk : Type 0 where
  pub chunk_index : ℕ
  pub size_bytes : ℕ
  pub sha256 : String
  pub storage_key : String

pub data ChunkAnswer : Type 0 where
  created replayed : ChunkAnswer

abbrev pub chunk_of : AttachmentDb → String → ℕ → Option ChunkRow
chunk_of db ref n = first (λ c. c.attachment_ref == ref && eqb c.chunk_index n) db.chunks

abbrev pub chunk_row : Owner → Chunk → ℕ → ChunkRow
chunk_row o c now = record {
  attachment_ref = o.attachment_ref;
  chunk_index = c.chunk_index;
  size_bytes = c.size_bytes;
  sha256 = c.sha256;
  storage_key = c.storage_key;
  created_at = now;
}

abbrev pub same_chunk : Chunk → ChunkRow → Bool
same_chunk c r =
    eqb r.size_bytes c.size_bytes && r.sha256 == c.sha256 && r.storage_key == c.storage_key

-- The constraints of `attachment_chunks`; its primary key is free, since no such chunk was found, and
-- the upload that it belongs to was found.
abbrev pub chunk_fits : AttachmentDb → Chunk → Bool
chunk_fits db c =
    ltb c.chunk_index 25
    && ltb 0 c.size_bytes
    && leb c.size_bytes 8388608
    && sha256_fits c.sha256
    && not (exists_in (λ r. r.storage_key == c.storage_key) db.chunks)

abbrev pub settle_chunk : Owner → Chunk → ℕ → Option ChunkRow → Op AttachmentDb ChunkAnswer
settle_chunk o c now (some r) = do
  refuse_if (not (same_chunk c r)) (attachment_error "ATTACHMENT_CHUNK_CONFLICT" 409 conflict)
  pure replayed
settle_chunk o c now none = do
  fits ← gets (λ db. chunk_fits db c)
  refuse_if (not fits) constraint_failed
  modify (λ db. record db { chunks = db.chunks ++ chunk_row o c now ∷ [] })
  pure created

-- `recordChunk`.
unfoldable pub record_chunk : Owner → Chunk → ℕ → Op AttachmentDb ChunkAnswer
record_chunk o c now = transaction (do
  row ← require_uploading o now
  found ← gets (λ db. chunk_of db o.attachment_ref c.chunk_index)
  settle_chunk o c now found)

abbrev index_le : ChunkRow → ChunkRow → Bool
index_le a b = leb a.chunk_index b.chunk_index

abbrev pub chunks_of : AttachmentDb → String → List ChunkRow
chunks_of db ref = order_by index_le (select (λ c. c.attachment_ref == ref) db.chunks)

-- `listChunks`.
unfoldable pub list_chunks : Owner → Op AttachmentDb (List ChunkRow)
list_chunks o = do row ← require_owned o; gets (λ db. chunks_of db o.attachment_ref)

abbrev pub completed_row : String → String → String → ℕ → AttachmentRow → AttachmentRow
completed_row media sha key now r = record r {
  detected_media_type = some media;
  sha256 = some sha;
  storage_key = some key;
  state = ready;
  expires_at = none;
  completed_at = some now;
}

-- `completeUpload`.
unfoldable pub complete_upload :
    Owner → String → String → String → ℕ → Op AttachmentDb AttachmentRow
complete_upload o media sha key now = transaction (do
  row ← require_uploading o now
  refuse_if (not (media_type_fits media) || not (sha256_fits sha)) constraint_failed
  modify (λ db. record db {
    attachments =
        update (λ r. r.attachment_ref == o.attachment_ref) (completed_row media sha key now)
          db.attachments;
  })
  require_owned o)

-- `requireReady`; the empty text counts as null, and no column holds one.
unfoldable pub require_ready : Owner → Op AttachmentDb AttachmentRow
require_ready o = do
  r ← require_owned o
  refuse_if (not (is_state r.state ready) || not (is_stored r)) attachment_not_ready
  pure r

-- `requireDownload`, with the refusal of `publicMetadata`.
unfoldable pub require_download : Owner → Op AttachmentDb AttachmentRow
require_download o = do
  r ← require_owned o
  refuse_if (not (is_live r.state)) attachment_not_found
  refuse_if (not (is_stored r)) attachment_not_ready
  pure r

-- `hasLiveStorageReference` with an attachment left out.
abbrev pub shared_key : AttachmentDb → String → String → Bool
shared_key db key ref =
    exists_in (λ r. is_text r.storage_key key && not (r.attachment_ref == ref) && is_live r.state)
      db.attachments

abbrev pub own_key : AttachmentDb → String → Option String → List String
own_key db ref none = []
own_key db ref (some key) = if shared_key db key ref then [] else key ∷ []

abbrev pub final_key : Option AttachmentRow → Option String
final_key none = none
final_key (some r) = r.storage_key

-- `storageKeys`: the files that go with an attachment, not the final one that another shares.
unfoldable pub storage_keys : AttachmentDb → String → List String
storage_keys db ref =
    map (λ (c : ChunkRow). c.storage_key) (chunks_of db ref)
    ++ own_key db ref (final_key (attachment_by_ref db ref))

abbrev pub without_chunks : String → AttachmentDb → AttachmentDb
without_chunks ref db = record db { chunks = select (λ c. not (c.attachment_ref == ref)) db.chunks }

abbrev pub deleted_row : AttachmentRow → AttachmentRow
deleted_row r = record r { state = deleted; reserved_bytes = 0; expires_at = none }

-- `cancelUpload`.
unfoldable pub cancel_upload : Owner → Op AttachmentDb (List String)
unfolding storage_keys
cancel_upload o = transaction (do
  r ← require_owned o
  refuse_if (is_state r.state attached)
      (attachment_error "ATTACHMENT_ALREADY_ATTACHED" 409 conflict)
  keys ← gets (λ db. storage_keys db o.attachment_ref)
  modify (λ db. without_chunks o.attachment_ref (record db {
    attachments = update (λ r. r.attachment_ref == o.attachment_ref) deleted_row db.attachments;
  }))
  pure keys)

abbrev pub expired_row : AttachmentRow → AttachmentRow
expired_row r = record r { state = expired; reserved_bytes = 0 }

abbrev pub expire_one : String → AttachmentDb → AttachmentDb
expire_one ref db =
    without_chunks ref
      (record db { attachments = update (λ r. r.attachment_ref == ref) expired_row db.attachments })

unfoldable pub expire_each : List String → AttachmentDb → AttachmentDb
expire_each [] db = db
expire_each (ref ∷ refs) db = expire_each refs (expire_one ref db)

abbrev pub runs_out : ℕ → Option ℕ → Bool
runs_out now none = false
runs_out now (some t) = leb t now

abbrev ref_le : AttachmentRow → AttachmentRow → Bool
ref_le a b = not (text_before b.attachment_ref a.attachment_ref)

-- The uploads that are over, `ORDER BY attachment_ref`.
abbrev pub lapsed_uploads : ℕ → AttachmentDb → List String
lapsed_uploads now db =
    map (λ (r : AttachmentRow). r.attachment_ref)
      (order_by ref_le
        (select (λ r. is_state r.state uploading && runs_out now r.expires_at) db.attachments))

-- `expireIncompleteUploads`: what each lapsed upload leaves behind, and the tables after.
unfoldable pub expire_incomplete_uploads : ℕ → Op AttachmentDb (List (String × List String))
unfolding storage_keys expire_each
expire_incomplete_uploads now db = (
  ok (map (λ ref. (ref, storage_keys db ref)) (lapsed_uploads now db)),
  expire_each (lapsed_uploads now db) db,
)

abbrev pub attachable : String → String → AttachmentRow → Bool
attachable person ref r =
    r.attachment_ref == ref && (r.owner_person_ref == person && is_state r.state ready)

abbrev pub attached_row : ℕ → AttachmentRow → AttachmentRow
attached_row now r = record r { state = attached; attached_at = some now }

-- The `UPDATE` by which `appendThreadMessage` takes an attachment into a message.
unfoldable pub attach : String → String → ℕ → Op AttachmentDb (Unit {0})
attach person ref now = do
  n ← gets (λ db. changes (attachable person ref) db.attachments)
  modify (λ db. record db {
    attachments = update (attachable person ref) (attached_row now) db.attachments;
  })
  refuse_if (not (eqb n 1)) attachment_not_ready
