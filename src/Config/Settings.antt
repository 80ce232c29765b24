-- ===== src/Config/Settings.antt =====
-- `GetSystemSettingsAllowList` of pkg/config/config.go.
use harvester_installer.Prelude.{List, String, [], ◌∷◌}

unfoldable pub get_system_settings_allow_list : List String
get_system_settings_allow_list =
    "additional-ca" ∷ "api-ui-version" ∷ "cluster-registration-url" ∷ "server-version" ∷ "ui-index"
    ∷ "ui-path" ∷ "ui-source" ∷ "ui-plugin-index" ∷ "volume-snapshot-class" ∷ "backup-target"
    ∷ "upgradable-versions" ∷ "upgrade-checker-enabled" ∷ "upgrade-checker-url"
    ∷ "release-download-url" ∷ "log-level" ∷ "ssl-certificates" ∷ "ssl-parameters"
    ∷ "support-bundle-image" ∷ "support-bundle-namespaces" ∷ "support-bundle-timeout"
    ∷ "support-bundle-expiration" ∷ "support-bundle-node-collection-timeout"
    ∷ "default-storage-class" ∷ "http-proxy" ∷ "vm-force-reset-policy" ∷ "overcommit-config"
    ∷ "vip-pools" ∷ "auto-disk-provision-paths" ∷ "csi-driver-config" ∷ "containerd-registry"
    ∷ "storage-network" ∷ "default-vm-termination-grace-period-seconds" ∷ "auto-rotate-rke2-certs"
    ∷ "kubeconfig-default-token-ttl-minutes" ∷ "harvester-csi-ccm-versions" ∷ "ntp-servers" ∷ []
