-- ===== src/Schema/Fields/Message.antt =====
-- The fields of `struct Document` for a message and its process.
use yaffle.Base.{List, [], ◌∷◌}
use yaffle.Macros.Attributes.{Field, uint_kind, int_kind, string_kind}
use yaffle.Schema.Fields.Notation.{
  name, convert, from_gelf, from_syslog, storage_type, format, skip_none, field,
}

unfoldable pub message_fields : List Field
message_fields =
    field "source_timestamp" uint_kind (
      from_gelf (
        convert "timestamp" "float_sec_to_usec"
        ∷ name "_SOURCE_REALTIME_TIMESTAMP"
        ∷ name "__SOURCE_REALTIME_TIMESTAMP"
        ∷ [])
      ∷ from_syslog (convert "source_timestamp" "datetime_to_usec" ∷ [])
      ∷ storage_type "fast_timestamp"
      ∷ [])
    ∷ field "hostname" string_kind (
        from_gelf (name "host" ∷ name "_HOSTNAME" ∷ [])
        ∷ from_syslog (name "hostname" ∷ [])
        ∷ storage_type "string"
        ∷ [])
    ∷ field "message" string_kind (
        from_gelf (name "short_message" ∷ [])
        ∷ from_syslog (name "message" ∷ [])
        ∷ storage_type "text"
        ∷ [])
    ∷ field "priority" uint_kind (
        from_gelf (name "level" ∷ name "_PRIORITY" ∷ [])
        ∷ from_syslog (name "priority" ∷ [])
        ∷ storage_type "u64"
        ∷ format "syslog_priority"
        ∷ skip_none
        ∷ [])
    ∷ field "full_message" string_kind (
        from_gelf (name "full_message" ∷ [])
        ∷ from_syslog (name "full_message" ∷ [])
        ∷ storage_type "text"
        ∷ skip_none
        ∷ [])
    ∷ field "message_id" string_kind
        (from_gelf (name "_MESSAGE_ID" ∷ []) ∷ storage_type "string" ∷ skip_none ∷ [])
    ∷ field "code_file" string_kind
        (from_gelf (name "file" ∷ name "_CODE_FILE" ∷ []) ∷ storage_type "text" ∷ skip_none ∷ [])
    ∷ field "code_line" uint_kind
        (from_gelf (name "line" ∷ name "_CODE_LINE" ∷ []) ∷ storage_type "u64" ∷ skip_none ∷ [])
    ∷ field "code_func" string_kind (
        from_gelf (name "_CODE_FUNC" ∷ name "_function" ∷ [])
        ∷ storage_type "string"
        ∷ skip_none
        ∷ [])
    ∷ field "errno" int_kind (from_gelf (name "_ERRNO" ∷ []) ∷ storage_type "i64" ∷ skip_none ∷ [])
    ∷ field "invocation_id" string_kind
        (from_gelf (name "_INVOCATION_ID" ∷ []) ∷ storage_type "string" ∷ skip_none ∷ [])
    ∷ field "user_invocation_id" string_kind
        (from_gelf (name "_USER_INVOCATION_ID" ∷ []) ∷ storage_type "string" ∷ skip_none ∷ [])
    ∷ field "facility" string_kind (
        from_gelf (name "facility" ∷ name "_facility" ∷ name "_SYSLOG_FACILITY" ∷ [])
        ∷ from_syslog (name "facility" ∷ [])
        ∷ storage_type "string"
        ∷ skip_none
        ∷ [])
    ∷ field "syslog_identifier" string_kind (
        from_gelf (name "_SYSLOG_IDENTIFIER" ∷ [])
        ∷ from_syslog (name "identifier" ∷ [])
        ∷ storage_type "string"
        ∷ skip_none
        ∷ [])
    ∷ field "syslog_pid" uint_kind (
        from_gelf (name "_SYSLOG_PID" ∷ [])
        ∷ from_syslog (name "pid" ∷ [])
        ∷ storage_type "u64"
        ∷ skip_none
        ∷ [])
    ∷ field "syslog_timestamp" uint_kind (
        from_gelf (convert "_SYSLOG_TIMESTAMP" "syslog_timestamp" ∷ [])
        ∷ storage_type "timestamp"
        ∷ skip_none
        ∷ [])
    ∷ field "pid" uint_kind
        (from_gelf (name "_PID" ∷ name "__PID" ∷ []) ∷ storage_type "u64" ∷ skip_none ∷ [])
    ∷ field "uid" uint_kind
        (from_gelf (name "_UID" ∷ name "__UID" ∷ []) ∷ storage_type "u64" ∷ skip_none ∷ [])
    ∷ field "gid" uint_kind
        (from_gelf (name "_GID" ∷ name "__GID" ∷ []) ∷ storage_type "u64" ∷ skip_none ∷ [])
    ∷ field "comm" string_kind
        (from_gelf (name "_COMM" ∷ name "__COMM" ∷ []) ∷ storage_type "string" ∷ skip_none ∷ [])
    ∷ field "exe" string_kind
        (from_gelf (name "_EXE" ∷ name "__EXE" ∷ []) ∷ storage_type "string" ∷ skip_none ∷ [])
    ∷ field "cmdline" string_kind
        (from_gelf (name "_CMDLINE" ∷ name "__CMDLINE" ∷ []) ∷ storage_type "text" ∷ skip_none ∷ [])
    ∷ field "cap_effective" uint_kind (
        from_gelf
          (convert "_CAP_EFFECTIVE" "hex_to_uint" ∷ convert "__CAP_EFFECTIVE" "hex_to_uint" ∷ [])
        ∷ storage_type "u64"
        ∷ format "hex"
        ∷ skip_none
        ∷ [])
    ∷ field "audit_session" uint_kind (
        from_gelf (name "_AUDIT_SESSION" ∷ name "__AUDIT_SESSION" ∷ [])
        ∷ storage_type "u64"
        ∷ skip_none
        ∷ [])
    ∷ []
