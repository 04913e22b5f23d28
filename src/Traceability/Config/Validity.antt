-- ===== src/Traceability/Config/Validity.antt =====
-- The parsed configuration of the traceability agent.
use agents_kong.Prelude.{
  String, ◌≡◌, ◌≢◌, is_some, inl, inr, ap, sym, subst, not, true, false, none, some, ◌==◌, eq_iff,
  Bool-cases, if◌then◌else◌,
}
use agents_kong.Prelude.Text.{◌<>◌, has_prefix, cut_prefix}
use agents_kong.Prelude.Text.Laws.{cut_prefix-append}
use agents_kong.Prelude.Int.{is_zero}
use agents_kong.Traceability.Config.{
  rooted, path_err, Props, cfg_kong_http_logs_port, validate_cfg, parse_properties, port_err,
}

slash_lem : (path : String) → has_prefix ("/" <> path) "/" ≡ true
unfolding has_prefix cut_prefix
slash_lem path = ap is_some (cut_prefix-append "/" path)

rooted_lem : (path : String) → has_prefix (rooted path) "/" ≡ true
rooted_lem path = elim (Bool-cases (has_prefix path "/")) [
  | inl with_slash ↦
      subst (λ b. has_prefix (if not b then "/" <> path else path) "/" ≡ true) (sym with_slash)
        with_slash
  | inr without ↦
      subst (λ b. has_prefix (if not b then "/" <> path else path) "/" ≡ true) (sym without)
        (slash_lem path)
]

empty_lem : has_prefix "" "/" ≢ true
unfolding has_prefix cut_prefix
empty_lem e = cc

not_empty : (path : String) → has_prefix path "/" ≡ true → path == "" ≡ false
not_empty path h = elim (Bool-cases (path == "")) [
  | inl empty ↦
      absurd (empty_lem (subst (λ p. has_prefix p "/" ≡ true) ((eq_iff path "").0 empty) h))
  | inr full ↦ full
]

-- The path that is listened on begins with "/", and the parsed configuration is refused exactly
-- where the port is 0, with the error of the port.
pub parse_properties-validate_cfg :
    (props : Props)
    → (has_prefix (parse_properties props).logs.http.path "/" ≡ true)
      × (validate_cfg (parse_properties props) ≡ (
          if is_zero (props.int_property_value cfg_kong_http_logs_port)
          then some port_err
          else none))
unfolding parse_properties validate_cfg
parse_properties-validate_cfg props = (
  rooted_lem _,
  ap
      (λ b.
        if b
        then some path_err
        else if is_zero (props.int_property_value cfg_kong_http_logs_port)
        then some port_err
        else none)
      (not_empty _ (rooted_lem _)),
)
