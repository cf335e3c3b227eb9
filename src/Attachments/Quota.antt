-- ===== src/Attachments/Quota.antt =====
-- What every sequence of the operations on apps/gateway/src/attachmentRepository.ts keeps: the
-- quota of each family, the columns that an upload's state asks for, and the uploads' references.
use family_ai_platform.Common.{
  ℕ, ◌+◌, ◌≤◌, String, Bool, true, false, ◌&&◌, none, some, List, [], ◌∷◌, ◌++◌, map, ◌≡◌, sym, ap,
  subst, ◌∙◌, arith, ◌==◌, eq_iff, if◌then◌else◌, is_some, first, exists_in, update, All,
  map-update, Bool-cases, inl, inr,
}
use family_ai_platform.Outbox.Leases.{Distinct}
use family_ai_platform.Attachments.{
  AttachmentState, uploading, ready, attached, expired, deleted, AttachmentRow, AttachmentDb,
  reserved_in,
}

-- The `CHECK` of `attachments` on the state.
abbrev pub StateFits : AttachmentState → AttachmentRow → Type 0
StateFits uploading r =
    (r.reserved_bytes ≡ r.size_bytes)
    × (r.sha256 ≡ none)
    × (r.storage_key ≡ none)
    × (is_some r.expires_at ≡ true)
    × (r.completed_at ≡ none)
    × (r.attached_at ≡ none)
StateFits ready r =
    (r.reserved_bytes ≡ r.size_bytes)
    × (is_some r.sha256 ≡ true)
    × (is_some r.storage_key ≡ true)
    × (r.expires_at ≡ none)
    × (is_some r.completed_at ≡ true)
    × (r.attached_at ≡ none)
StateFits attached r =
    (r.reserved_bytes ≡ r.size_bytes)
    × (is_some r.sha256 ≡ true)
    × (is_some r.storage_key ≡ true)
    × (r.expires_at ≡ none)
    × (is_some r.completed_at ≡ true)
    × (is_some r.attached_at ≡ true)
StateFits expired r = r.reserved_bytes ≡ 0
StateFits deleted r = r.reserved_bytes ≡ 0

abbrev pub RowFits : AttachmentRow → Type 0
RowFits r = StateFits r.state r

abbrev pub attachment_refs : List AttachmentRow → List String
attachment_refs rs = map (λ (r : AttachmentRow). r.attachment_ref) rs

pub record IsWithin (quota : ℕ) (db : AttachmentDb) : Type 0 where
  pub distinct : Distinct (attachment_refs db.attachments)
  pub fits : All RowFits db.attachments
  pub bounded : (family : String) → reserved_in family db.attachments ≤ quota

pub reserved_in-append :
    (family : String) (rs : List AttachmentRow) (r : AttachmentRow)
    → reserved_in family (rs ++ r ∷ [])
      ≡ reserved_in family rs + (if r.family_ref == family then r.reserved_bytes else 0)
reserved_in-append family [] r = omega arith
reserved_in-append family (x ∷ rs) r = omega (arith, reserved_in-append family rs r)

-- An update that keeps the families and raises no reservation.
reserved_in-update :
    (family : String) (p : AttachmentRow → Bool) (f : AttachmentRow → AttachmentRow)
    → ((r : AttachmentRow) → (f r).family_ref ≡ r.family_ref)
    → ((r : AttachmentRow) → (f r).reserved_bytes ≤ r.reserved_bytes)
    → (rs : List AttachmentRow) → reserved_in family (update p f rs) ≤ reserved_in family rs
reserved_in-update family p f same less [] = omega arith
reserved_in-update family p f same less (r ∷ rs) =
    ground (arith, same r, less r, reserved_in-update family p f same less rs)

-- With distinct references a row with an owner's reference is the owner's row.
absent :
    (ref : String) (P : AttachmentRow → Type 0) (rs : List AttachmentRow)
    → exists_in (λ x. x == ref) (attachment_refs rs) ≡ false
    → All (λ x. (x.attachment_ref == ref) ≡ true → P x) rs
absent ref P [] h = tt
absent ref P (r ∷ rs) h = (λ e. absurd (ground arith), absent ref P rs (ground arith))

present :
    (ref : String) (q : AttachmentRow → Bool) (rs : List AttachmentRow) (r : AttachmentRow)
    → first (λ x. x.attachment_ref == ref && q x) rs ≡ some r
    → exists_in (λ x. x == ref) (attachment_refs rs) ≡ true
present ref q [] r h = cc
present ref q (x ∷ rs) r h = ground (arith, present ref q rs r)

-- With distinct references a row with the reference of a row that is found is that row.
pub found-All :
    (ref : String) (q : AttachmentRow → Bool) (rs : List AttachmentRow) (r : AttachmentRow)
    → Distinct (attachment_refs rs)
    → first (λ x. x.attachment_ref == ref && q x) rs ≡ some r
    → All (λ x. (x.attachment_ref == ref) ≡ true → x ≡ r) rs
found-All ref q [] r d h = tt
found-All ref q (x ∷ rs) r (fresh, d) h = elim (Bool-cases (x.attachment_ref == ref)) [
  | inr other ↦ (λ e. absurd (ground arith), found-All ref q rs r d (ground arith))
  | inl mine ↦
      let gone : exists_in (λ y. y == ref) (attachment_refs rs) ≡ false =
        subst (λ y. exists_in (λ z. z == y) (attachment_refs rs) ≡ false)
          ((eq_iff x.attachment_ref ref).0 mine) fresh in
      elim (Bool-cases (q x)) [
        | inl here ↦ (λ e. ground arith, absent ref (λ y. y ≡ r) rs gone)
        | inr past ↦ absurd (ground (arith, present ref q rs r))
      ]
]

pub update_found :
    (ref : String) (f : AttachmentRow → AttachmentRow) (r : AttachmentRow)
    → RowFits (f r)
    → (rs : List AttachmentRow) → All RowFits rs
    → All (λ x. (x.attachment_ref == ref) ≡ true → x ≡ r) rs
    → All RowFits (update (λ x. x.attachment_ref == ref) f rs)
update_found ref f r w [] h same = tt
update_found ref f r w (x ∷ rs) (k, h) (e, same) = (
  elim (Bool-cases (x.attachment_ref == ref)) [
    | inl mine ↦ rw mine (subst (λ y. RowFits (f y)) (sym (e mine)) w)
    | inr other ↦ rw other k
  ],
  update_found ref f r w rs h same,
)

-- An update that keeps references and families, and raises no reservation.
pub updated-IsWithin :
    (quota : ℕ) (p : AttachmentRow → Bool) (f : AttachmentRow → AttachmentRow)
    → ((r : AttachmentRow) → (f r).attachment_ref ≡ r.attachment_ref)
    → ((r : AttachmentRow) → (f r).family_ref ≡ r.family_ref)
    → ((r : AttachmentRow) → (f r).reserved_bytes ≤ r.reserved_bytes)
    → (db db' : AttachmentDb) → db'.attachments ≡ update p f db.attachments
    → IsWithin quota db
    → All RowFits (update p f db.attachments)
    → IsWithin quota db'
updated-IsWithin quota p f ref family less db db' e v h = record {
  distinct =
      subst Distinct
        (sym
          (ap attachment_refs e ∙ map-update (λ (r : AttachmentRow). r.attachment_ref) p f ref _))
        v.distinct;
  fits = subst (All RowFits) (sym e) h;
  bounded = λ fam. omega (
    arith,
    ap (reserved_in fam) e,
    v.bounded fam,
    reserved_in-update fam p f family less db.attachments,
  );
}

pub same-IsWithin :
    (quota : ℕ) (db db' : AttachmentDb)
    → db'.attachments ≡ db.attachments
    → IsWithin quota db
    → IsWithin quota db'
same-IsWithin quota db db' e v = record {
  distinct = subst Distinct (ap attachment_refs (sym e)) v.distinct;
  fits = subst (All RowFits) (sym e) v.fits;
  bounded = λ fam. omega (arith, ap (reserved_in fam) e, v.bounded fam);
}
