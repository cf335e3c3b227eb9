-- ===== src/Attachments/Histories.antt =====
-- Every operation of apps/gateway/src/attachmentRepository.ts, and that any sequence of them keeps
-- what `Quota` states.
use family_ai_platform.Common.{
  ℕ, ◌+◌, ◌≤◌, String, true, false, ◌&&◌, List, [], ◌∷◌, ◌++◌, ◌≡◌, refl, sym, ap, subst, ◌∙◌,
  arith, ◌==◌, eq_iff, is_some, is_ok, first, exists_in, All, All-append, All-first, All-update,
  Bool-cases, Outcome-cases, Option-cases, inl, inr,
}
use mathlib.Core.List.{map-append}
use family_ai_platform.Outbox.Leases.{Distinct}
use family_ai_platform.System.Sound.{Distinct-append}
use family_ai_platform.Attachments.{
  AttachmentState, uploading, ready, attached, expired, deleted, is_state, AttachmentRow,
  AttachmentDb, reserved_in, owned, attachment_by_ref,
}
use family_ai_platform.Attachments.Names.{normalize_attachment_name}
use family_ai_platform.Attachments.Uploads.{
  Reservation, reserved_row, reserve_upload, Owner, Chunk, record_chunk, complete_upload,
  completed_row, cancel_upload, deleted_row, expire_incomplete_uploads, expire_each, expire_one,
  expired_row, attach, attachable, attached_row, lapsed_uploads,
}
use family_ai_platform.Attachments.Quota.{
  RowFits, attachment_refs, IsWithin, reserved_in-append, found-All, update_found, updated-IsWithin,
  same-IsWithin,
}

complete_fits :
    (media sha key : String) (now : ℕ) (r : AttachmentRow)
    → RowFits r
    → is_state r.state uploading ≡ true
    → RowFits (completed_row media sha key now r)
complete_fits media sha key now r h t = by_state r.state refl
  where
    by_state : (s : AttachmentState) → r.state ≡ s → RowFits (completed_row media sha key now r)
    by_state uploading e = ground arith
    by_state ready e = absurd (ground arith)
    by_state attached e = absurd (ground arith)
    by_state expired e = absurd (ground arith)
    by_state deleted e = absurd (ground arith)

complete_keeps :
    (quota : ℕ) (o : Owner) (media sha key : String) (now : ℕ) (db : AttachmentDb)
    → IsWithin quota db
    → IsWithin quota (complete_upload o media sha key now db).1
unfolding complete_upload
complete_keeps quota o media sha key now db v =
    elim (Bool-cases (is_ok (complete_upload o media sha key now db).0)) [
      | inr bad ↦ same-IsWithin quota db _ (ground arith) v
      | inl good ↦ elim (Option-cases (owned db o.family_ref o.person_ref o.attachment_ref)) [
        | inl f ↦ absurd (ground arith)
        | inr (r, f) ↦
            updated-IsWithin quota (λ x. x.attachment_ref == o.attachment_ref)
              (completed_row media sha key now) (λ x. refl) (λ x. refl) (λ x. omega arith) db _
              (ground arith) v
              (update_found o.attachment_ref (completed_row media sha key now) r
                (complete_fits media sha key now r
                  (All-first RowFits
                    (λ x.
                      x.attachment_ref == o.attachment_ref
                      && (x.family_ref == o.family_ref && x.owner_person_ref == o.person_ref))
                    db.attachments r v.fits f)
                  (ground arith))
                db.attachments v.fits
                (found-All o.attachment_ref
                  (λ x. x.family_ref == o.family_ref && x.owner_person_ref == o.person_ref)
                  db.attachments r v.distinct f))
      ]
    ]

cancel_keeps :
    (quota : ℕ) (o : Owner) (db : AttachmentDb)
    → IsWithin quota db
    → IsWithin quota (cancel_upload o db).1
unfolding cancel_upload
cancel_keeps quota o db v = elim (Bool-cases (is_ok (cancel_upload o db).0)) [
  | inr bad ↦ same-IsWithin quota db _ (ground arith) v
  | inl good ↦
      updated-IsWithin quota (λ r. r.attachment_ref == o.attachment_ref) deleted_row (λ r. refl)
        (λ r. refl) (λ r. omega arith) db _ (ground arith) v
        (All-update RowFits (λ r. r.attachment_ref == o.attachment_ref) deleted_row (λ r h e. refl)
          db.attachments v.fits)
]

chunk_keeps :
    (quota : ℕ) (o : Owner) (c : Chunk) (now : ℕ) (db : AttachmentDb)
    → IsWithin quota db
    → IsWithin quota (record_chunk o c now db).1
unfolding record_chunk
chunk_keeps quota o c now db v = same-IsWithin quota db _ (ground arith) v

expire_each_keeps :
    (quota : ℕ) (refs : List String) (db : AttachmentDb)
    → IsWithin quota db
    → IsWithin quota (expire_each refs db)
unfolding expire_each
expire_each_keeps quota [] db v = v
expire_each_keeps quota (ref ∷ refs) db v = expire_each_keeps quota refs (expire_one ref db) (
    updated-IsWithin quota (λ r. r.attachment_ref == ref) expired_row (λ r. refl) (λ r. refl)
      (λ r. omega arith) db (expire_one ref db) refl v
      (All-update RowFits (λ r. r.attachment_ref == ref) expired_row (λ r h e. refl) db.attachments
        v.fits))

attach_fits :
    (person ref : String) (now : ℕ) (r : AttachmentRow)
    → RowFits r
    → attachable person ref r ≡ true
    → RowFits (attached_row now r)
attach_fits person ref now r h t = by_state r.state refl
  where
    by_state : (s : AttachmentState) → r.state ≡ s → RowFits (attached_row now r)
    by_state ready e = ground arith
    by_state uploading e = absurd (ground arith)
    by_state attached e = absurd (ground arith)
    by_state expired e = absurd (ground arith)
    by_state deleted e = absurd (ground arith)

attach_keeps :
    (quota : ℕ) (person ref : String) (now : ℕ) (db : AttachmentDb)
    → IsWithin quota db
    → IsWithin quota (attach person ref now db).1
unfolding attach
attach_keeps quota person ref now db v =
    updated-IsWithin quota (attachable person ref) (attached_row now) (λ r. refl) (λ r. refl)
      (λ r. omega arith) db _ refl v
      (All-update RowFits (attachable person ref) (attached_row now) (attach_fits person ref now)
        db.attachments v.fits)

absent_ref :
    (ref : String) (rs : List AttachmentRow)
    → is_some (first (λ r. r.attachment_ref == ref) rs) ≡ false
    → exists_in (λ x. x == ref) (attachment_refs rs) ≡ false
absent_ref ref [] h = refl
absent_ref ref (r ∷ rs) h = ground (arith, absent_ref ref rs)

-- A reservation that succeeds adds one row, whose reference is new and for whose size there is
-- room.
reserve_adds :
    (normal : String → String) (quota : ℕ) (i : Reservation) (ref : String) (now : ℕ)
    (db : AttachmentDb)
    → is_ok (reserve_upload normal quota i ref now db).0 ≡ true
    → (name : String) × ((reserve_upload normal quota i ref now db).1.attachments
        ≡ db.attachments ++ reserved_row i name ref now ∷ [])
      × (is_some (attachment_by_ref db ref) ≡ false)
      × (reserved_in i.family_ref db.attachments + i.size_bytes ≤ quota)
unfolding reserve_upload
reserve_adds normal quota i ref now db h =
    elim (Outcome-cases (normalize_attachment_name normal i.file_name)) [
      | inl (name, n) ↦ (name, ground arith, ground arith, ground arith)
      | inr (e, n) ↦ absurd (ground arith)
    ]

reserve_fails :
    (normal : String → String) (quota : ℕ) (i : Reservation) (ref : String) (now : ℕ)
    (db : AttachmentDb)
    → is_ok (reserve_upload normal quota i ref now db).0 ≡ false
    → (reserve_upload normal quota i ref now db).1 ≡ db
unfolding reserve_upload
reserve_fails normal quota i ref now db h =
    elim (Outcome-cases (normalize_attachment_name normal i.file_name)) [
      | inl (name, n) ↦ ground arith
      | inr (e, n) ↦ ground arith
    ]

reserve_keeps :
    (normal : String → String) (quota : ℕ) (i : Reservation) (ref : String) (now : ℕ)
    (db : AttachmentDb)
    → IsWithin quota db
    → IsWithin quota (reserve_upload normal quota i ref now db).1
reserve_keeps normal quota i ref now db v =
    elim (Bool-cases (is_ok (reserve_upload normal quota i ref now db).0)) [
      | inr bad ↦ subst (IsWithin quota) (sym (reserve_fails normal quota i ref now db bad)) v
      | inl good ↦
          let (name, e, new, room) = reserve_adds normal quota i ref now db good in
          let r : AttachmentRow = reserved_row i name ref now in
          record {
            distinct =
                subst Distinct
                  (sym (
                    ap attachment_refs e
                    ∙ map-append (λ (x : AttachmentRow). x.attachment_ref) db.attachments (r ∷ [])))
                  (Distinct-append (attachment_refs db.attachments) ref
                    (absent_ref ref db.attachments new) v.distinct);
            fits = subst (All RowFits) (sym e) (
                All-append RowFits db.attachments (r ∷ []) v.fits
                  (((refl, refl, refl, refl, refl, refl), tt)));
            bounded = λ fam. ground (
              arith,
              ap (reserved_in fam) e,
              reserved_in-append fam db.attachments r,
              v.bounded fam,
              eq_iff i.family_ref fam,
              λ (h : i.family_ref ≡ fam). ap (λ f. reserved_in f db.attachments) h,
            );
          }
    ]

-- One operation on the attachments, whether it succeeds or not.
pub data UploadStep (quota : ℕ) (db : AttachmentDb) : AttachmentDb → Type 0 where
  reserves :
      (normal : String → String) (i : Reservation) (ref : String) (now : ℕ)
      → UploadStep quota db (reserve_upload normal quota i ref now db).1
  adds_chunk : (o : Owner) (c : Chunk) (now : ℕ) → UploadStep quota db (record_chunk o c now db).1
  completes :
      (o : Owner) (media sha key : String) (now : ℕ)
      → UploadStep quota db (complete_upload o media sha key now db).1
  cancels : (o : Owner) → UploadStep quota db (cancel_upload o db).1
  expires : (now : ℕ) → UploadStep quota db (expire_incomplete_uploads now db).1
  attaches : (person ref : String) (now : ℕ) → UploadStep quota db (attach person ref now db).1

pub data UploadHistory (quota : ℕ) (db : AttachmentDb) : AttachmentDb → Type 0 where
  here : UploadHistory quota db db
  next :
      {mid last : AttachmentDb}
      → UploadHistory quota db mid
      → UploadStep quota mid last
      → UploadHistory quota db last

pub UploadStep-IsWithin :
    {quota : ℕ} {db db' : AttachmentDb}
    → UploadStep quota db db'
    → IsWithin quota db
    → IsWithin quota db'
unfolding expire_incomplete_uploads
UploadStep-IsWithin {quota} {db} (reserves normal i ref now) v =
    reserve_keeps normal quota i ref now db v
UploadStep-IsWithin {quota} {db} (adds_chunk o c now) v = chunk_keeps quota o c now db v
UploadStep-IsWithin {quota} {db} (completes o media sha key now) v =
    complete_keeps quota o media sha key now db v
UploadStep-IsWithin {quota} {db} (cancels o) v = cancel_keeps quota o db v
UploadStep-IsWithin {quota} {db} (expires now) v =
    expire_each_keeps quota (lapsed_uploads now db) db v
UploadStep-IsWithin {quota} {db} (attaches person ref now) v =
    attach_keeps quota person ref now db v

-- Whatever the operations and their order, from a table that is within the quota: no family holds
-- more reserved bytes than the quota, every row has the columns that the table's check asks of its
-- state, and no reference stands twice.
pub uploads-IsWithin :
    (quota : ℕ) (db db' : AttachmentDb)
    → IsWithin quota db
    → UploadHistory quota db db'
    → IsWithin quota db'
uploads-IsWithin quota db db' v here = v
uploads-IsWithin quota db db' v (next {mid} r s) =
    UploadStep-IsWithin s (uploads-IsWithin quota db mid v r)
