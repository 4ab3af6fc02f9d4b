-- ===== src/Atcmd/Liveness.antt =====
-- How a command that is repeated until it is answered comes to its end.
use embedded_template.Atcmd.Line.{Line}
