-- ===== src/Schema/Fields/Object.antt =====
-- The fields of `struct Document` for a message's object, and the times of receipt.
use yaffle.Base.{List, [], ◌∷◌}
use yaffle.Macros.Attributes.{Field, uint_kind, string_kind}
use yaffle.Schema.Fields.Notation.{name, from_gelf, storage_type, skip_none, field}

unfoldable pub object_fields : List Field
object_fields =
    field "coredump_unit" string_kind
      (from_gelf (name "_COREDUMP_UNIT" ∷ []) ∷ storage_type "text" ∷ skip_none ∷ [])
    ∷ field "coredump_user_unit" string_kind
        (from_gelf (name "_COREDUMP_USER_UNIT" ∷ []) ∷ storage_type "text" ∷ skip_none ∷ [])
    ∷ field "object_pid" uint_kind
        (from_gelf (name "_OBJECT_PID" ∷ []) ∷ storage_type "u64" ∷ skip_none ∷ [])
    ∷ field "object_uid" uint_kind
        (from_gelf (name "_OBJECT_UID" ∷ []) ∷ storage_type "u64" ∷ skip_none ∷ [])
    ∷ field "object_gid" uint_kind
        (from_gelf (name "_OBJECT_GID" ∷ []) ∷ storage_type "u64" ∷ skip_none ∷ [])
    ∷ field "object_comm" string_kind
        (from_gelf (name "_OBJECT_COMM" ∷ []) ∷ storage_type "string" ∷ skip_none ∷ [])
    ∷ field "object_exe" string_kind
        (from_gelf (name "_OBJECT_EXE" ∷ []) ∷ storage_type "string" ∷ skip_none ∷ [])
    ∷ field "object_cmdline" string_kind
        (from_gelf (name "_OBJECT_CMDLINE" ∷ []) ∷ storage_type "text" ∷ skip_none ∷ [])
    ∷ field "object_audit_session" uint_kind
        (from_gelf (name "_OBJECT_AUDIT_SESSION" ∷ []) ∷ storage_type "u64" ∷ skip_none ∷ [])
    ∷ field "object_audit_loginuid" uint_kind
        (from_gelf (name "_OBJECT_AUDIT_LOGINUID" ∷ []) ∷ storage_type "u64" ∷ skip_none ∷ [])
    ∷ field "object_systemd_cgroup" string_kind
        (from_gelf (name "_OBJECT_SYSTEMD_CGROUP" ∷ []) ∷ storage_type "text" ∷ skip_none ∷ [])
    ∷ field "object_systemd_session" string_kind
        (from_gelf (name "_OBJECT_SYSTEMD_SESSION" ∷ []) ∷ storage_type "string" ∷ skip_none ∷ [])
    ∷ field "object_systemd_owner_uid" uint_kind
        (from_gelf (name "_OBJECT_SYSTEMD_OWNER_UID" ∷ []) ∷ storage_type "u64" ∷ skip_none ∷ [])
    ∷ field "object_systemd_unit" string_kind
        (from_gelf (name "_OBJECT_SYSTEMD_UNIT" ∷ []) ∷ storage_type "text" ∷ skip_none ∷ [])
    ∷ field "object_systemd_user_unit" string_kind
        (from_gelf (name "_OBJECT_SYSTEMD_USER_UNIT" ∷ []) ∷ storage_type "text" ∷ skip_none ∷ [])
    ∷ field "recv_rt_timestamp" uint_kind
        (from_gelf (name "___REALTIME_TIMESTAMP" ∷ []) ∷ storage_type "timestamp" ∷ skip_none ∷ [])
    ∷ field "recv_mt_timestamp" uint_kind
        (from_gelf (name "___MONOTONIC_TIMESTAMP" ∷ []) ∷ storage_type "u64" ∷ skip_none ∷ [])
    ∷ []
