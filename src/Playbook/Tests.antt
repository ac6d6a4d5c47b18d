-- ===== src/Playbook/Tests.antt =====
-- Tests and examples of playbook/.
use gronin.Prelude.{List, ◌++◌, All, true, false, [], ◌∷◌, map, not, some, ◌≡◌, refl, ok, err}
use gronin.Prelude.Bytes.{
  Bytes, Entries, codes, same, value_of, put_value, sort, place, member, has_prefix, contains_byte,
  cut,
}
use gronin.Config.Reference.{
  is_key_byte, all_key_bytes, pieces, scan, found, next_scan, closes_after, trigger_references,
  payload_key, namespace_key,
}
use gronin.Playbook.Pointer.{
  Json, nil, cons, end, field, member_of, item_at, push_byte, split, replace_pair, unescape,
  is_digit, digits, digits_of, within_int, atoi, indexed, step_into, walk_segments, at_pointer,
  single_value,
}
use gronin.Playbook.Pointer.RoundTrip.{pointer_to, follow, at_pointer-pointer_to}
use gronin.Playbook.Values.{
  Playbook, ValueRefusalKind, extract, extract_each, in_range, goes_on, tail, two_more, three_more,
  more_bytes, count_runes, rune_count, anchored_match, referenced, check_text, check_single,
  is_null, check_raw, check_one, note, check_each, unless_refusals, check, Regexps,
}
use gronin.Playbook.Values.Accepts.{Accepts}
use gronin.Playbook.Values.Whole.{check-Accepts}
use gronin.Playbook.Scope.{
  up, clean_step, clean_from, path_of, rooted, resolved, inside_working_directory,
}
use gronin.Playbook.Scope.Stays.{run}
use gronin.Playbook.Scope.Inside.{inside_sibling}
use gronin.Playbook.Tools.{
  Agent, split_twice, join_twice, is_letter, is_figure, is_tool_name, shape_of, mcp_shape,
  mcp_problem, all_word_bytes, is_word, before_bracket, scope_in, scoped_after, scoped_tool,
  scope_problem, default_tool, tool_problem, allow_problem, server_problem, add_reason, problems_of,
  agent_problems, Field, Reason,
}
use gronin.Playbook.Retrieval.{
  Retrieval, RetrievalReason, written_by_gather, is_gather, is_taken, note_if, retrievals_from,
  validate_retrieve,
}
use gronin.Playbook.Retrieval.Accepted.{Allowed, all_distinct, validate_retrieve-Allowed}

abbrev document : Json
document = Json.object (
    field (codes "a/b")
      (Json.array (cons (Json.text (codes "x")) (cons (Json.number (codes "1.0")) nil))) end)

at_pointer_second : at_pointer document (codes "/a~1b/1") ≡ Json.number (codes "1.0")
unfolding at_pointer walk_segments step_into unescape replace_pair split push_byte member_of same
    indexed atoi digits_of digits is_digit within_int item_at
at_pointer_second = refl

-- An index that RFC 6901 does not allow.
at_pointer_leading_zero : at_pointer document (codes "/a~1b/01") ≡ Json.number (codes "1.0")
unfolding at_pointer walk_segments step_into unescape replace_pair split push_byte member_of same
    indexed atoi digits_of digits is_digit within_int item_at
at_pointer_leading_zero = refl

at_pointer_plus : at_pointer document (codes "/a~1b/+1") ≡ Json.number (codes "1.0")
unfolding at_pointer walk_segments step_into unescape replace_pair split push_byte member_of same
    indexed atoi digits_of digits is_digit within_int item_at
at_pointer_plus = refl

at_pointer-pointer_to_example :
    at_pointer document (pointer_to (codes "a/b" ∷ codes "1" ∷ []))
    ≡ follow document (codes "a/b" ∷ codes "1" ∷ [])
at_pointer-pointer_to_example = at_pointer-pointer_to document (codes "a/b" ∷ codes "1" ∷ [])

rune_count_utf8 : rune_count (b'a' ∷ 0xC3 ∷ 0xA9 ∷ 0xFF ∷ []) ≡ 3
unfolding rune_count count_runes more_bytes in_range goes_on tail two_more three_more
rune_count_utf8 = refl

-- A regular expression library whose every pattern matches texts without a space.
abbrev no_spaces : Regexps
no_spaces pattern = some (λ s. not (contains_byte b' ' s))

abbrev book : Playbook
book = record {
  values = (codes "ref", record { at = codes "/r"; pattern = codes "S+"; max_length = 4 }) ∷ [];
  runs = codes "show ${trigger.ref}" ∷ [];
}

abbrev delivery : Entries Json
delivery = (codes "ref", Json.text (codes "v1")) ∷ []

check_v1 : check no_spaces book delivery ≡ ok ((codes "ref", codes "v1") ∷ [])
unfolding check check_each check_one check_raw check_single check_text is_null single_value
    rune_count count_runes more_bytes in_range goes_on tail two_more three_more anchored_match
    contains_byte referenced pieces scan found next_scan closes_after trigger_references payload_key
    namespace_key cut same member has_prefix value_of note put_value unless_refusals sort place
check_v1 = refl

check_dash :
    check no_spaces book ((codes "ref", Json.text (codes "-v")) ∷ [])
    ≡ err ((record { name = codes "ref"; kind = ValueRefusalKind.leading_dash }) ∷ [])
unfolding check check_each check_one check_raw check_single check_text is_null single_value
    rune_count count_runes more_bytes in_range goes_on tail two_more three_more anchored_match
    contains_byte referenced pieces scan found next_scan closes_after trigger_references payload_key
    namespace_key cut same member has_prefix value_of note put_value unless_refusals sort place
check_dash = refl

check_extracted :
    check no_spaces book (extract book document)
    ≡ err ((record { name = codes "ref"; kind = ValueRefusalKind.absent }) ∷ [])
unfolding check extract extract_each at_pointer walk_segments step_into unescape replace_pair split
    push_byte member_of check_each check_one check_raw check_single is_null referenced pieces scan
    found next_scan closes_after contains_byte trigger_references payload_key namespace_key cut same
    member value_of note unless_refusals sort place
check_extracted = refl

check-Accepts_example :
    (s : Bytes) × (value_of (codes "ref") ((codes "ref", codes "v1") ∷ []) ≡ some s)
    × Accepts no_spaces book delivery (codes "ref") s
unfolding member same
check-Accepts_example =
    check-Accepts no_spaces book delivery ((codes "ref", codes "v1") ∷ []) (codes "ref") check_v1
      refl

inside_dots : inside_working_directory (codes "docs/../src/./a") ≡ true
unfolding inside_working_directory resolved rooted path_of clean_from clean_step up split push_byte
    has_prefix same
inside_dots = refl

inside_above : inside_working_directory (codes "docs/../../etc") ≡ false
unfolding inside_working_directory resolved rooted path_of clean_from clean_step up split push_byte
    has_prefix same
inside_above = refl

inside_sibling_example :
    (inside_working_directory (codes "../run/" ++ codes "x") ≡ true)
    × (clean_from (codes "job" ∷ codes "var" ∷ []) (split b'/' (codes "../run/" ++ codes "x"))
        ≡ codes "x" ∷ run ∷ codes "var" ∷ [])
unfolding contains_byte same
inside_sibling_example = inside_sibling (codes "var" ∷ []) (codes "job") (codes "x") refl refl refl

abbrev reader : Agent
reader = record {
  tools = codes "Read" ∷ codes "mcp__jira__get-issue" ∷ [];
  allow = codes "Read(docs/a)" ∷ codes "mcp__jira__get__it" ∷ [];
  mcp = codes "jira" ∷ [];
}

writer_problems :
    agent_problems [] (record {
      tools = codes "Edit" ∷ [];
      allow = codes "Read(../x)" ∷ codes "mcp__jira" ∷ [];
      mcp = codes "jira" ∷ [];
    })
    ≡ (record { field = Field.tools 0; reason = Reason.writes })
      ∷ (record { field = Field.allow 0; reason = Reason.outside })
      ∷ (record { field = Field.allow 1; reason = Reason.whole_server })
      ∷ (record { field = Field.mcp 0; reason = Reason.unprovided })
      ∷ []
unfolding agent_problems problems_of add_reason tool_problem allow_problem server_problem
    mcp_problem scope_problem default_tool scoped_tool scoped_after scope_in before_bracket is_word
    all_word_bytes mcp_shape shape_of is_tool_name is_letter is_figure join_twice split_twice cut
    same member contains_byte all_key_bytes is_key_byte push_byte inside_working_directory resolved
    rooted path_of clean_from clean_step up split has_prefix
writer_problems = refl

-- A retrieval of the collection `docs`, into a file.
abbrev retrieval_into : Bytes → Retrieval
retrieval_into name = record {
  collection = codes "docs";
  query_from = codes "log";
  as_name = name;
  max_results = 0;
  max_bytes = 4096;
}

abbrev retrievals : List Retrieval
retrievals = retrieval_into (codes "first") ∷ retrieval_into (codes "second") ∷ []

retrievals_allowed : validate_retrieve (codes "docs" ∷ []) (codes "log" ∷ []) retrievals ≡ []
unfolding validate_retrieve retrievals_from written_by_gather note_if is_gather is_taken value_of
    put_value member same
retrievals_allowed = refl

retrievals_twice :
    validate_retrieve
      (codes "docs" ∷ [])
      (codes "log" ∷ [])
      (retrieval_into (codes "log") ∷ retrieval_into (codes "log") ∷ [])
    ≡ (record { at = 0; reason = RetrievalReason.taken })
      ∷ (record { at = 1; reason = RetrievalReason.no_gather_output })
      ∷ (record { at = 1; reason = RetrievalReason.taken })
      ∷ []
unfolding validate_retrieve retrievals_from written_by_gather note_if is_gather is_taken value_of
    put_value member same
retrievals_twice = refl

validate_retrieve-Allowed_example :
    All (Allowed (codes "docs" ∷ []) (codes "log" ∷ [])) retrievals
    × (all_distinct (map (λ (r : Retrieval). r.as_name) retrievals) ≡ true)
validate_retrieve-Allowed_example =
    validate_retrieve-Allowed (codes "docs" ∷ []) (codes "log" ∷ []) retrievals retrievals_allowed
