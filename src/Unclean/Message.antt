-- ===== src/Unclean/Message.antt =====
-- The message of a rebuilt commit.
use tunnel2tunnel.Base.{
  Bool, not, ◌&&◌, ◌||◌, [], ◌∷◌, ◌++◌, Text, codes, ◌==◌, list_eq, nat_eq, if◌then◌else◌, newline,
  strip, splitlines, keep_if, length, ltb,
}
use tunnel2tunnel.Trailers.{split_trailer_block}
use tunnel2tunnel.Unclean.Info.{CommitInfo, rstrip_newlines, lstrip_newlines}

-- `_strip_trailers`, which pops the lines that the first half of `split_trailer_block` pops.
unfoldable pub strip_trailers : Text → Text
strip_trailers body = (split_trailer_block body).0

unfoldable pub non_boilerplate_history_content : (Text → Bool) → CommitInfo → Text
unfolding strip_trailers
non_boilerplate_history_content is_ai_subject history_info =
    let stripped = strip_trailers history_info.body in
    let non_trivial =
      keep_if (λ line. not (strip line == []) && not (is_ai_subject (strip line)))
        (splitlines stripped) in
    if ltb 1 (length non_trivial) then strip stripped else []

unfoldable pub message_with_body : Text → Text → Text
message_with_body subject body =
    let stripped = rstrip_newlines (lstrip_newlines body) in
    if stripped == []
    then subject ++ newline ∷ []
    else subject ++ (newline ∷ newline ∷ [] ++ (stripped ++ newline ∷ []))

unfoldable pub merge_message : (Text → Bool) → CommitInfo → CommitInfo → Text
unfolding non_boilerplate_history_content message_with_body
merge_message is_ai_subject clean_info history_info =
    let message = message_with_body clean_info.subject clean_info.body in
    let extra = non_boilerplate_history_content is_ai_subject history_info in
    if clean_info.subject == history_info.subject || extra == []
    then message
    else rstrip_newlines message ++ (codes "\n\n---\n" ++ (extra ++ newline ∷ []))
