-- ===== src/Internal.antt =====
-- The code that both plugins share: internal/kube_helper.go and internal/utils/shell/cmd.go.
pub mod CommandLine
pub mod Host
pub mod Kubeconfig
pub mod Shell
