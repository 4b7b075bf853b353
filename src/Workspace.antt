-- ===== src/Workspace.antt =====
-- The workspaces of the DQM GUI: `DQMWorkspace` and its classes in src/python/DQM/GUI.py.
pub mod Desk
pub mod Params
pub mod Settings
pub mod Objects
pub mod Reference
pub mod Initial
pub mod Handlers
pub mod Image
pub mod Content
pub mod Requests
pub mod Legal
pub mod Names
pub mod Customise
pub mod Defaults
