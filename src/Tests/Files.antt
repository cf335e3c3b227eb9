-- ===== src/Tests/Files.antt =====
-- A run of the uploads of a family: two reservations, of which the second would pass the quota, and an expiry.
use family_ai_platform.Common.{ℕ, String, true, [], ◌∷◌, arith}
use family_ai_platform.Attachments.{AttachmentDb}
use family_ai_platform.Attachments.Uploads.{Reservation, reserve_upload, expire_incomplete_uploads}
use family_ai_platform.Attachments.Quota.{IsWithin}
use family_ai_platform.Attachments.Histories.{here, next, reserves, expires, uploads-IsWithin}

abbrev files_start : AttachmentDb
files_start = record {
  memberships = record { family_ref = "family:f"; person_ref = "person:an"; active = true } ∷ [];
  attachments = [];
  chunks = [];
}

abbrev upload : String → ℕ → Reservation
upload name size = record {
  family_ref = "family:f";
  person_ref = "person:an";
  file_name = name;
  declared_media_type = "text/plain";
  size_bytes = size;
}

abbrev as_given : String → String
as_given s = s

abbrev files_reserved : AttachmentDb
files_reserved = (reserve_upload as_given 100 (upload "a.txt" 60) "attachment:a" 10 files_start).1

abbrev files_twice : AttachmentDb
files_twice = (reserve_upload as_given 100 (upload "b.txt" 60) "attachment:b" 20 files_reserved).1

start-IsWithin : IsWithin 100 files_start
start-IsWithin = record { distinct = tt; fits = tt; bounded = λ family. omega arith }

uploads-IsWithin_example : IsWithin 100 (expire_incomplete_uploads 90000000 files_twice).1
uploads-IsWithin_example =
    uploads-IsWithin 100 files_start (expire_incomplete_uploads 90000000 files_twice).1
      start-IsWithin
      (next
        (next (next here (reserves as_given (upload "a.txt" 60) "attachment:a" 10))
          (reserves as_given (upload "b.txt" 60) "attachment:b" 20))
        (expires 90000000))
