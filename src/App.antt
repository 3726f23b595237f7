-- ===== src/App.antt =====
-- crates/octty-app: the decisions of the application that need no window: keys, selections and
-- snapshots.
pub mod Keys
pub mod Lifecycle
pub mod Toasts
pub mod Flush
pub mod Bootstrap
pub mod Workspaces
pub mod Navigation
pub mod SidebarMenu
pub mod ShellConfig
pub mod StatusRefresh
pub mod ActivityStore
pub mod Snapshots
pub mod Selection
