-- ===== src/Tests/WorkerTests.antt =====
-- internal/worker/message.go.
use mathlib.Core.List.{[], ◌∷◌, ◌++◌}
use nit.Base.{
  trim_space, trim_left_from, trim_right, all_space, space_length, ◌≡◌, ◌≢◌, refl, false, text,
  GoString, All, arith, pos, digits, split_from,
}
use nit.Taskspec.{PushSpec}
use nit.Worker.Message.{
  sanitize_message, strip, collapse, scan, commit_message, append_trailers, ends_with_trailer_block,
  paragraphs, key_and_space, trailer_block, trailer, sanitize_trailer_value,
}
use nit.Worker.Message.Honest.{is_forged, is_forged-sanitize_message}

-- A forged trailer below the subject is removed.
abbrev forged : GoString
forged = text "Fix it" ++ (10 ∷ 10 ∷ text " nit-user: bob" ++ (10 ∷ text "Done"))

removes_forged : sanitize_message forged (text "main") ≡ text "Fix it" ++ (10 ∷ 10 ∷ text "Done")
unfolding sanitize_message strip collapse scan trim_space trim_left_from trim_right all_space
    space_length
removes_forged = refl

-- A vertical tab hides a line from the expression, and is then trimmed away.
hidden_by_space : sanitize_message (11 ∷ text "Nit-User: bob") (text "main") ≡ text "Nit-User: bob"
unfolding sanitize_message strip collapse scan trim_space trim_left_from trim_right all_space
    space_length
hidden_by_space = refl

abbrev spec : PushSpec
spec = record {
  policy_user_id = text "alice";
  request_id = [];
  policy_version = text "v1";
  base_commit = [];
  workspace_id = [];
  dropped_files = pos 2;
  message = text "Fix" ++ (10 ∷ 10 ∷ text "Signed-off-by: a");
  branch = text "main";
  repository = [];
  remote = [];
  forge = [];
  patch_digest = [];
  patch_encoding = [];
  author_name = [];
  author_email = [];
  user_id = [];
}

joins_block :
    commit_message spec []
    ≡ text "Fix"
      ++ (10 ∷ 10 ∷ text "Signed-off-by: a"
          ++ (10 ∷ text "Nit-User: alice"
              ++ (10 ∷ text "Nit-Policy-Version: v1" ++ (10 ∷ text "Nit-Dropped: 2" ++ (10 ∷ [])))))
unfolding commit_message append_trailers ends_with_trailer_block paragraphs key_and_space
    trailer_block trailer sanitize_trailer_value split_from digits sanitize_message strip collapse
    scan trim_space trim_left_from trim_right all_space space_length
joins_block = refl

one_line : All (λ c. c ≢ 10) (text "main")
one_line =
    ((λ h. omega arith), ((λ h. omega arith), ((λ h. omega arith), ((λ h. omega arith), tt))))

is_forged-sanitize_message_example : is_forged false (sanitize_message forged (text "main")) ≡ false
is_forged-sanitize_message_example = is_forged-sanitize_message forged (text "main") one_line
