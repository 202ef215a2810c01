-- ===== src/Recovery/Updating.antt =====
-- The software update of src/tboot.c spares the first device of the volume with the update.
use tboot.Boot.{Boot}
