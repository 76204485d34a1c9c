-- ===== src/Spf/Evaluating.antt =====
-- spf/evaluate.go: the definitions that an evaluation computes with.

use mailkit.Text.{
  eq_str, mem_str, is_space, lower, to_lower, equal_fold, trim_left, keep, trim_right, trim_space,
  starts_word, cons_head, fields, index, last_index, contains, index_any, has_prefix, has_suffix,
  index_str, trim_end, split, separated, join,
}
use mailkit.Dnsx.{
  after_scheme, before_path, after_user, before_port, trim_www, normalize_host, normalize,
  is_subdomain_of, labels, is_void, not_found_error, not_found, unanswered_error, unanswered,
  void_error, message,
}
use mailkit.Spf.Terms.{
  costing_names, costs_lookup, has_macro, is_version, modifier_at, split_qualifier, mechanism,
  parse_term, parse_fields, parse, first_field, records,
}
use mailkit.Spf.Tree.{default_limits}
use mailkit.Spf.State.{
  classify, fetched_txt, fetched_answer, void_answer, void_list, log, halt, fail, inexact, perm,
  is_no_error, perm_first, node, count_term, note_include, note_cycle, note_broken, value_or_domain,
  via_for, count_void,
}
use mailkit.Spf.Walk.{
  records_question, fetch, void_question, void, answered, qtype_for, resolve, terminal, enter,
  descend_to, descend, stop, finish, spend, note_all, walk_terms, walk, start, evaluate_root, run,
  evaluate,
}

-- What a run of the evaluator computes with.
unfoldable pub evaluating : Unit {0}
unfolding eq_str mem_str is_space lower to_lower equal_fold trim_left keep trim_right trim_space
    starts_word cons_head fields index last_index contains index_any has_prefix has_suffix index_str
    trim_end split separated join after_scheme before_path after_user before_port trim_www
    normalize_host normalize is_subdomain_of labels is_void not_found_error not_found
    unanswered_error unanswered void_error message costing_names costs_lookup has_macro is_version
    modifier_at split_qualifier mechanism parse_term parse_fields parse first_field records classify
    fetched_txt fetched_answer void_answer void_list log halt fail inexact perm is_no_error
    perm_first node count_term note_include note_cycle note_broken value_or_domain via_for
    count_void records_question fetch void_question void answered qtype_for resolve terminal enter
    descend_to descend stop finish spend note_all walk_terms walk start evaluate_root run evaluate
    default_limits
evaluating = tt
