-- ===== src/Attachments.antt =====
-- The attachments of apps/gateway/src/attachmentRepository.ts: its tables, and the operations on
-- an upload from its reservation to its end. `Names` has the names and sizes that an upload may
-- have.
-- Times are milliseconds. The form that `normalize("NFC").trim()` gives a name is an argument,
-- `normal`; a metadata's download address is left out, as is the description of an asset.
pub mod Names
pub mod Uploads
pub mod Quota
pub mod Histories
use family_ai_platform.Common.{
  ℕ, ◌+◌, String, Bool, true, false, not, ◌&&◌, ◌||◌, Option, none, some, List, [], ◌∷◌, Failure,
  Category, permission, conflict, domain_error, ◌==◌, is_some, if◌then◌else◌, first, exists_in,
}
use family_ai_platform.Pairing.{Membership}

pub data AttachmentState : Type 0 where
  uploading ready attached expired deleted : AttachmentState

abbrev pub is_state : AttachmentState → AttachmentState → Bool
is_state uploading uploading = true
is_state ready ready = true
is_state attached attached = true
is_state expired expired = true
is_state deleted deleted = true
is_state _ _ = false

-- `attachments`, and the `AttachmentRecord` that `mapAttachment` reads from a row.
pub record AttachmentRow : Type 0 where
  pub attachment_ref : String
  pub family_ref : String
  pub owner_person_ref : String
  pub file_name : String
  pub declared_media_type : String
  pub detected_media_type : Option String
  pub size_bytes : ℕ
  pub reserved_bytes : ℕ
  pub sha256 : Option String
  pub storage_key : Option String
  pub state : AttachmentState
  pub created_at : ℕ
  pub expires_at : Option ℕ
  pub completed_at : Option ℕ
  pub attached_at : Option ℕ

-- `attachment_chunks`.
pub record ChunkRow : Type 0 where
  pub attachment_ref : String
  pub chunk_index : ℕ
  pub size_bytes : ℕ
  pub sha256 : String
  pub storage_key : String
  pub created_at : ℕ

pub record AttachmentDb : Type 0 where
  pub memberships : List Membership
  pub attachments : List AttachmentRow
  pub chunks : List ChunkRow

abbrev pub max_file_bytes : ℕ
max_file_bytes = 209715200

abbrev pub upload_lifetime : ℕ
upload_lifetime = 86400000

-- `domainError`, whose errors are never retried.
abbrev pub attachment_error : String → ℕ → Category → Failure
attachment_error code status category = domain_error code status category false

abbrev pub attachment_not_found : Failure
attachment_not_found = attachment_error "ATTACHMENT_NOT_FOUND" 404 permission

abbrev pub attachment_not_ready : Failure
attachment_not_ready = attachment_error "ATTACHMENT_NOT_READY" 409 conflict

abbrev pub attachment_by_ref : AttachmentDb → String → Option AttachmentRow
attachment_by_ref db ref = first (λ r. r.attachment_ref == ref) db.attachments

-- `getOwned`.
abbrev pub owned : AttachmentDb → String → String → String → Option AttachmentRow
owned db family person ref =
    first (λ r. r.attachment_ref == ref && (r.family_ref == family && r.owner_person_ref == person))
      db.attachments

abbrev pub family_member : AttachmentDb → String → String → Bool
family_member db family person =
    exists_in (λ m. m.family_ref == family && m.person_ref == person && m.active) db.memberships

-- `familyReservedBytes`.
abbrev pub reserved_in : String → List AttachmentRow → ℕ
reserved_in family [] = 0
reserved_in family (r ∷ rs) =
    (if r.family_ref == family then r.reserved_bytes else 0) + reserved_in family rs

abbrev pub family_reserved_bytes : AttachmentDb → String → ℕ
family_reserved_bytes db family = reserved_in family db.attachments

abbrev pub is_live : AttachmentState → Bool
is_live s = is_state s ready || is_state s attached

-- The columns that a stored file fills: the detected type, the digest and the storage key.
abbrev pub is_stored : AttachmentRow → Bool
is_stored r = is_some r.detected_media_type && (is_some r.sha256 && is_some r.storage_key)
