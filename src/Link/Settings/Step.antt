-- ===== src/Link/Settings/Step.antt =====
-- The handlers of core/link/link.c and what the host has set, as in Link.Actions.Step.
use ardopb.Base.{if◌then◌else◌}
use ardopb.Link.Settings.Host.{is_fec_send_cmd}
use ardopb.Link.Host.{fec_type}
use ardopb.Link.State.{Config, Link, Input, host}
use ardopb.Link.Turn.{Turn}

-- What an input makes of the configuration.
abbrev pub carried : Input → Config → Config
carried (host cmd) c =
    if is_fec_send_cmd cmd.kind
    then record c { fec_frame_type = fec_type cmd.arg c.fec_frame_type }
    else c
carried other c = c
