-- ===== src/Atcmd/Unanswered.antt =====
-- What atcmd_send_tcp answers when the modem says something else until the time is over.
use embedded_template.Atcmd.Line.{Line}
