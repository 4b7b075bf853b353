-- ===== src/Server/Owners.antt =====
-- A session answers no other client (`_getSession` and `session` of src/python/Core/GUI.py).
use dqmgui_prod.Base.Dict
use dqmgui_prod.Exec.{Exec}
use dqmgui_prod.Server.{Server}
