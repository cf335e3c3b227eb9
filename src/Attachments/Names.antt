-- ===== src/Attachments/Names.antt =====
-- The names of attachments: `normalizeAttachmentName` of apps/gateway/src/attachmentPolicy.ts.
use family_ai_platform.Common.{
  ℕ, String, Bool, not, ◌&&◌, ◌||◌, Outcome, ok, err, thrown, ◌==◌, eqb, leb, if◌then◌else◌,
  exists_in,
}
use family_ai_platform.SyncContract.Formats.{codes, in_range, units}

-- `.length` of a text.
unfoldable pub text_length : String → ℕ
unfolding units
text_length s = units (codes s)

-- `[\/\\\u0000-\u001f\u007f]`.
abbrev forbidden_in_name : ℕ → Bool
forbidden_in_name c = eqb c b'/' || eqb c 92 || in_range 0 31 c || eqb c 127

abbrev name_ok : String → Bool
name_ok s =
    leb 1 (text_length s)
    && leb (text_length s) 255
    && not (s == ".")
    && not (s == "..")
    && not (exists_in forbidden_in_name (codes s))

module _ (normal : String → String) where
  -- `normalizeAttachmentName`.
  unfoldable pub normalize_attachment_name : String → Outcome String
  normalize_attachment_name s =
      if name_ok (normal s) then ok (normal s) else err (thrown "ATTACHMENT_NAME_INVALID")
