-- ===== src/Validation/Errors.antt =====
-- `ValidationError` of `app/core/validation.py`: one constructor for each message that the program
-- raises it with. A message's interpolated values that a caller may act on come along.
use netops_console.Prelude.{ℕ, Option}
use netops_console.Net.{Network}

pub data ValidationError : Type 0 where
  -- `app/core/validation.py`
  no_address invalid_address ipv6_unsupported : ValidationError
  no_network no_prefix_length invalid_network : ValidationError
  host_bits_set : Option Network → ValidationError
  overlaps_reserved not_private outside_allowed : Network → ValidationError
  too_many_addresses : Network → ℕ → ValidationError
  no_hostname hostname_too_long invalid_hostname : ValidationError
  invalid_port port_out_of_range : ValidationError
  -- `app/modules/settings/service.py`
  no_ranges not_whole_number not_between : ValidationError
  -- `app/modules/actions/schema.py`
  too_many_params bad_param_name definition_not_object bad_param_type : ValidationError
  pattern_not_string useless_pattern bad_pattern ssh_needs_constraint : ValidationError
  bad_choices choice_not_string bound_not_whole : ValidationError
  empty_template too_many_tokens placeholder_program embedded_placeholder : ValidationError
  unknown_params unused_params program_rejected : ValidationError
  param_required param_too_long param_has_nul param_not_whole : ValidationError
  param_too_small param_too_large param_not_a_choice param_no_match : ValidationError
  -- `app/modules/actions/service.py`, `app/modules/diagnostics/service.py`, `http_check.py`
  no_name name_too_long bad_execution_type bad_timeout : ValidationError
  action_disabled not_applicable address_blocked address_outside : ValidationError
  unknown_diagnostic no_discovered_hostname needs_port : ValidationError
  bad_scheme unresolved no_ipv4_address : ValidationError
  -- `app/modules/credentials/service.py`
  credential_needs_name credential_needs_username bad_auth_type no_secret : ValidationError
  secret_too_large duplicate_credential key_encrypted key_unreadable : ValidationError
