-- ===== src/Schema/Fields/Journal.antt =====
-- The fields of `struct Document` for what the journal knows of a message.
use yaffle.Base.{List, [], ◌∷◌}
use yaffle.Macros.Attributes.{Field, uint_kind, string_kind}
use yaffle.Schema.Fields.Notation.{name, from_gelf, storage_type, skip_none, field}

unfoldable pub journal_fields : List Field
journal_fields =
    field "audit_loginuid" uint_kind (
      from_gelf (name "_AUDIT_LOGINUID" ∷ name "__AUDIT_LOGINUID" ∷ [])
      ∷ storage_type "u64"
      ∷ skip_none
      ∷ [])
    ∷ field "systemd_cgroup" string_kind (
        from_gelf (name "_SYSTEMD_CGROUP" ∷ name "__SYSTEMD_CGROUP" ∷ [])
        ∷ storage_type "text"
        ∷ skip_none
        ∷ [])
    ∷ field "systemd_slice" string_kind (
        from_gelf (name "_SYSTEMD_SLICE" ∷ name "__SYSTEMD_SLICE" ∷ [])
        ∷ storage_type "text"
        ∷ skip_none
        ∷ [])
    ∷ field "systemd_unit" string_kind (
        from_gelf (name "_SYSTEMD_UNIT" ∷ name "__SYSTEMD_UNIT" ∷ [])
        ∷ storage_type "text"
        ∷ skip_none
        ∷ [])
    ∷ field "systemd_user_unit" string_kind (
        from_gelf (name "_SYSTEMD_USER_UNIT" ∷ name "__SYSTEMD_USER_UNIT" ∷ [])
        ∷ storage_type "text"
        ∷ skip_none
        ∷ [])
    ∷ field "systemd_user_slice" string_kind (
        from_gelf (name "_SYSTEMD_USER_SLICE" ∷ name "__SYSTEMD_USER_SLICE" ∷ [])
        ∷ storage_type "text"
        ∷ skip_none
        ∷ [])
    ∷ field "systemd_session" string_kind (
        from_gelf (name "_SYSTEMD_SESSION" ∷ name "__SYSTEMD_SESSION" ∷ [])
        ∷ storage_type "string"
        ∷ skip_none
        ∷ [])
    ∷ field "systemd_owner_uid" uint_kind (
        from_gelf (name "_SYSTEMD_OWNER_UID" ∷ name "__SYSTEMD_OWNER_UID" ∷ [])
        ∷ storage_type "u64"
        ∷ skip_none
        ∷ [])
    ∷ field "selinux_context" string_kind (
        from_gelf (name "_SELINUX_CONTEXT" ∷ name "__SELINUX_CONTEXT" ∷ [])
        ∷ storage_type "string"
        ∷ skip_none
        ∷ [])
    ∷ field "boot_id" string_kind (
        from_gelf (name "_BOOT_ID" ∷ name "__BOOT_ID" ∷ [])
        ∷ storage_type "string"
        ∷ skip_none
        ∷ [])
    ∷ field "machine_id" string_kind (
        from_gelf (name "_MACHINE_ID" ∷ name "__MACHINE_ID" ∷ [])
        ∷ storage_type "string"
        ∷ skip_none
        ∷ [])
    ∷ field "systemd_invocation_id" string_kind (
        from_gelf (name "_SYSTEMD_INVOCATION_ID" ∷ name "__SYSTEMD_INVOCATION_ID" ∷ [])
        ∷ storage_type "string"
        ∷ skip_none
        ∷ [])
    ∷ field "transport" string_kind (
        from_gelf (name "_TRANSPORT" ∷ name "__TRANSPORT" ∷ [])
        ∷ storage_type "string"
        ∷ skip_none
        ∷ [])
    ∷ field "stream_id" string_kind (
        from_gelf (name "_STREAM_ID" ∷ name "__STREAM_ID" ∷ [])
        ∷ storage_type "string"
        ∷ skip_none
        ∷ [])
    ∷ field "line_break" string_kind
        (from_gelf (name "_LINE_BREAK" ∷ []) ∷ storage_type "string" ∷ skip_none ∷ [])
    ∷ field "namespace" string_kind
        (from_gelf (name "_NAMESPACE" ∷ []) ∷ storage_type "string" ∷ skip_none ∷ [])
    ∷ field "kernel_device" string_kind
        (from_gelf (name "_KERNEL_DEVICE" ∷ []) ∷ storage_type "text" ∷ skip_none ∷ [])
    ∷ field "kernel_subsystem" string_kind
        (from_gelf (name "_KERNEL_SUBSYSTEM" ∷ []) ∷ storage_type "string" ∷ skip_none ∷ [])
    ∷ field "udev_sysname" string_kind
        (from_gelf (name "_UDEV_SYSNAME" ∷ []) ∷ storage_type "text" ∷ skip_none ∷ [])
    ∷ field "udev_devnode" string_kind
        (from_gelf (name "_UDEV_DEVNODE" ∷ []) ∷ storage_type "text" ∷ skip_none ∷ [])
    ∷ field "udev_devlink" string_kind
        (from_gelf (name "_UDEV_DEVLINK" ∷ []) ∷ storage_type "text" ∷ skip_none ∷ [])
    ∷ []
